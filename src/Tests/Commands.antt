-- ===== src/Tests/Commands.antt =====
-- Runs of the slash commands and of the popup.
use free_cli.Base.{◌≤◌, length, arith, ℕ, true, List, [], ◌∷◌, ◌++◌, none, some, pos, negsuc, bytes}
use free_cli.Session.{sm_init}
use free_cli.Fs.{CJson}
use free_cli.Overlay.{visible, overlay_pick}
use free_cli.Overlay as Popup
use free_cli.Overlay.Frames.{Picks, overlay_pick-Picks}
use free_cli.Commands.{fs_line, CmdCtx, cmd_dispatch}
use free_cli.Commands.Chats.{sm_init-ChatsValid}
use free_cli.Commands.Total.{Keeps, cmd_dispatch-Keeps}

-- The codes of ncurses.
abbrev codes : Popup.Keys
codes = record { key_up = 259; key_down = 258; key_ppage = 339; key_npage = 338; key_enter = 343 }

overlay_pick-Picks_example :
    Picks 5 (visible 5 11) (overlay_pick codes 5 (pos 4) 11 (258 ∷ 339 ∷ 259 ∷ 10 ∷ []))
overlay_pick-Picks_example = overlay_pick-Picks codes 5 (pos 4) 11 (258 ∷ 339 ∷ 259 ∷ 10 ∷ [])

abbrev no_json : CJson (List ℕ)
no_json = record {
  parse = λ text. some text;
  item = λ v key. some v;
  string_of = λ v. some v;
  create_object = [];
  number_of = λ v. none;
  children = λ v. [];
  create_array = [];
  add_string = λ v key s. v ++ key ++ s;
  add_number = λ v key n. v ++ n ∷ [];
  add_item = λ v key w. v ++ w;
  add_element = λ v w. v ++ w;
  print = λ v. v;
}

abbrev start : CmdCtx
start = record {
  sessions = sm_init;
  sidebar_sel = negsuc 0;
  focus = 0;
  current_model = none;
  current_provider = none;
  has_delete = true;
  has_set_model = true;
  has_set_provider = true;
  has_worker_req = true;
  reply = 7;
}

cmd_dispatch-Keeps_example :
    Keeps 2147483647 (cmd_dispatch no_json start (some (bytes "/new work")) (negsuc 0))
    × (length (fs_line (bytes "read a b")).op_name ≤ 31)
    × (length (fs_line (bytes "read a b")).path ≤ 1023)
unfolding sm_init
cmd_dispatch-Keeps_example =
    cmd_dispatch-Keeps no_json start (some (bytes "/new work")) (negsuc 0) (bytes "read a b")
      sm_init-ChatsValid (omega arith)
