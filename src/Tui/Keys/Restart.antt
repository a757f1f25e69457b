-- ===== src/Tui/Keys/Restart.antt =====
-- A start of the program on the files that it wrote (main of src/ui/main.c, src/ui/persist.c).
use free_cli.Base.{
  ℕ, suc, ◌+◌, ◌<◌, ◌≡◌, ◌≢◌, refl, ap, sym, subst, List, [], ◌∷◌, some, arith, length, length-take,
  All,
}
use mathlib.Core.List.{map}
use free_cli.Session.{Session, SessionManager, sm_init}
use free_cli.Session.Invariant.{IsValid, DistinctIds, view}
use free_cli.Commands.Chats.{ChatsValid}
use free_cli.Fs.{CJson}
use free_cli.Persist.{Files, Env, persist_load, persist_save_all}
use free_cli.Persist.Json.{CJsonLaws}
use free_cli.Persist.Saved.{FilesLaws}
use free_cli.Persist.Load.{Fits}
use free_cli.Persist.RoundTrip.{Outline, outline, stored, persist_load-persist_save_all}
use free_cli.Tui.Keys.{LoopKeys, Event, start_ui, run}
use free_cli.Tui.Keys.Quit.{asks_quit, RunEnds}
use free_cli.Tui.Keys.Run.{SoundEvent, run_valid}

-- Two lists of sessions with the same ids, in order.
SameIds : List Session → List Session → Type 0
SameIds [] [] = Unit {0}
SameIds [] (t ∷ ts) = ⊥
SameIds (s ∷ ss) [] = ⊥
SameIds (s ∷ ss) (t ∷ ts) = (s.id ≡ t.id) × SameIds ss ts

abbrev id_of : List Outline → ℕ → ℕ
id_of [] d = d
id_of (o ∷ os) d = o.0

abbrev rest_of : List Outline → List Outline
rest_of [] = []
rest_of (o ∷ os) = os

SameIds-outline : (ss ts : List Session) → map outline ss ≡ map stored ts → SameIds ss ts
unfolding SameIds
SameIds-outline [] [] e = tt
SameIds-outline [] (t ∷ ts) e = absurd cc
SameIds-outline (s ∷ ss) [] e = absurd cc
SameIds-outline (s ∷ ss) (t ∷ ts) e =
    (ap (λ os. id_of os 0) e, SameIds-outline ss ts (ap rest_of e))

All-SameIds :
    (P : ℕ → Type 0) (ss ts : List Session)
    → SameIds ss ts
    → All (λ (t : Session). P t.id) ts
    → All (λ (s : Session). P s.id) ss
unfolding SameIds
All-SameIds P [] [] e a = tt
All-SameIds P [] (t ∷ ts) e a = absurd e
All-SameIds P (s ∷ ss) [] e a = absurd e
All-SameIds P (s ∷ ss) (t ∷ ts) e a = (subst P (sym e.0) a.0, All-SameIds P ss ts e.1 a.1)

DistinctIds-SameIds : (ss ts : List Session) → SameIds ss ts → DistinctIds ts → DistinctIds ss
unfolding SameIds
DistinctIds-SameIds [] [] e d = tt
DistinctIds-SameIds [] (t ∷ ts) e d = absurd e
DistinctIds-SameIds (s ∷ ss) [] e d = absurd e
DistinctIds-SameIds (s ∷ ss) (t ∷ ts) e d = (
  All-SameIds (λ i. s.id ≢ i) ss ts e.1
      (subst (λ i. All (λ (u : Session). i ≢ u.id) ts) (sym e.0) d.0),
  DistinctIds-SameIds ss ts e.1 d.1,
)

length-SameIds : (ss ts : List Session) → SameIds ss ts → length ss ≡ length ts
unfolding SameIds
length-SameIds [] [] e = refl
length-SameIds [] (t ∷ ts) e = absurd e
length-SameIds (s ∷ ss) [] e = absurd e
length-SameIds (s ∷ ss) (t ∷ ts) e = ap suc (length-SameIds ss ts e.1)

loaded-ChatsValid :
    (old new : SessionManager)
    → IsValid old
    → Fits new
    → SameIds (view new) (view old)
    → new.next_id ≡ old.next_id
    → ChatsValid new
loaded-ChatsValid old new v f e n = record {
  sessions_valid = record {
    slots = f.slots;
    within = f.within;
    active_fits = f.active_fits;
    below =
        subst (λ b. All (λ (s : Session). s.id < b) (view new)) (sym n)
          (All-SameIds (λ i. i < old.next_id) (view new) (view old) e v.below);
    distinct = DistinctIds-SameIds (view new) (view old) e v.distinct;
  };
  chats_valid = f.chats;
  names = f.names;
}

-- On a disk that takes every write, a start on the files that persist_save_all wrote of valid
-- sessions has those sessions again as far as a file keeps them. For fewer events than ids are
-- left below 2^31 - 1, whatever keys are pressed then, and whatever comes from a backend whose
-- final replies name a session below 2^31 and whose error texts have a terminator, the run ends in
-- a valid state, or with a payload of 2^32 bytes, or, if q is among the keys, with a read of what
-- was freed.
pub restart_valid :
    {F V : Type 0} (os : Files F) (json : CJson V)
    → FilesLaws os
    → CJsonLaws json
    → (env : Env) (fs : F) (sm : SessionManager) (k : LoopKeys) (es : List Event) → IsValid sm
    → sm.next_id + length es < 2147483647
    → All SoundEvent es
    → (sm' : SessionManager) × (persist_load os json env
          (persist_save_all os json env fs sm)
          sm_init
        ≡ some (sm', sm.count))
      × (map outline (view sm') ≡ map stored (view sm))
      × RunEnds (asks_quit es) (run k json (start_ui (sm', sm.count)) es)
restart_valid os json disk laws env fs sm k es v small sound =
    let (sm', loads, seen, next_id, fits) =
      persist_load-persist_save_all os json disk laws env fs sm v (omega arith) in
    let same = SameIds-outline (view sm') (view sm) seen in
    let as_many : sm'.count ≡ sm.count = omega (
      arith,
      length-SameIds (view sm') (view sm) same,
      length-take sm.count sm.sessions,
      v.slots,
      v.within,
      length-take sm'.count sm'.sessions,
      fits.slots,
      fits.within,
    ) in
    (
      sm',
      loads,
      seen,
      run_valid k json sm' sm.count es (loaded-ChatsValid sm sm' v fits same next_id) as_many
          (omega (arith, small, next_id)) sound,
    )
