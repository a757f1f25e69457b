-- ===== src/Tests/Desk.antt =====
-- A state of the terminal UI with two sessions, and the keys and the JSON of its runs.
use free_cli.Base.{ℕ, refl, true, false, List, [], ◌∷◌, ◌++◌, none, some, arith, replicate, pos}
use free_cli.Chat.{Message}
use free_cli.Session.{Session, SessionManager, zero_session}
use free_cli.Fs.{CJson}
use free_cli.Tui.{InFlight, Ui}
use free_cli.Tui.Submit.{waiting}
use free_cli.Tui.Submit.Starts.{plain}
use free_cli.Tui.Keys.{LoopKeys}
use free_cli.Tui.Valid.{IsValid}

abbrev pub nothing : CJson (List ℕ)
nothing = record {
  parse = λ text. some text;
  item = λ v key. none;
  string_of = λ v. some v;
  number_of = λ v. none;
  children = λ v. [];
  create_object = [];
  create_array = [];
  add_string = λ v key s. v ++ key ++ s;
  add_number = λ v key n. v ++ n ∷ [];
  add_item = λ v key w. v ++ w;
  add_element = λ v w. v ++ w;
  print = λ v. v;
}

abbrev pub codes : LoopKeys
codes = record {
  line = record {
    key_enter = 343;
    key_backspace = 263;
    key_left = 260;
    key_right = 261;
    key_home = 262;
    key_end = 360;
    key_up = 259;
    key_down = 258;
    prints_beyond = λ ch. false;
  };
  key_resize = 410;
  key_ppage = 339;
  key_npage = 338;
}

abbrev pub question : Message
question = plain (104 ∷ 105 ∷ []) true

abbrev pub placeholder : Message
placeholder = plain waiting false

abbrev pub work : Session
work = record { id = 3; name = 119 ∷ []; chat = record { msgs = []; capacity = 0; scroll = pos 0 } }

abbrev pub home : Session
home = record {
  id = 7;
  name = 104 ∷ [];
  chat = record { msgs = question ∷ placeholder ∷ []; capacity = 64; scroll = pos 0 };
}

abbrev pub two : SessionManager
two = record {
  sessions = work ∷ home ∷ replicate 30 zero_session;
  count = 2;
  active = pos 0;
  next_id = 9;
}

abbrev pub idle : InFlight
idle = record {
  corr_id = 0;
  parent_corr_id = 0;
  depth = 0;
  session_idx = pos 0;
  name = [];
  active = false;
}

abbrev pub asked_home : InFlight
asked_home = record {
  corr_id = 5;
  parent_corr_id = 0;
  depth = 0;
  session_idx = pos 1;
  name = 104 ∷ [];
  active = true;
}

-- Two sessions, of which the second waits for an answer, and a typed line.
abbrev pub desk : Ui
desk = record {
  in_flight = asked_home ∷ replicate 31 idle;
  pending_choices = none;
  sessions = two;
  input_line = record { buffer = 111 ∷ 107 ∷ []; len = 2; pos = 2; history = []; hist_pos = 0 };
  focus = 2;
  sidebar_sel = pos 1;
  connected = true;
  next_corr = 6;
  selected_model = 109 ∷ [];
  selected_provider = 120 ∷ [];
  pending_approval_corr = 0;
  pending_approval_desc = [];
}

-- The same, with the sidebar in front.
abbrev pub leaving : Ui
leaving = record desk { focus = 0 }

pub desk-IsValid : IsValid desk
desk-IsValid = record {
  sessions_valid = record {
    sessions_valid = record {
      slots = refl;
      within = omega arith;
      active_fits = omega arith;
      below = (omega arith, (omega arith, tt));
      distinct = (((λ e. omega arith), tt), (tt, tt));
    };
    chats_valid = omega arith;
    names = omega arith;
  };
  selected = omega arith;
  line = omega arith;
  slots = refl;
  choices = tt;
  texts = record {
    model_fits = omega arith;
    provider_fits = omega arith;
    description_fits = omega arith;
  };
  entries = omega arith;
}
