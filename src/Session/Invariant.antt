-- ===== src/Session/Invariant.antt =====
-- What holds of every session manager that src/ui/session.c makes.
use free_cli.Base.{
  ℕ, zero, suc, ◌+◌, ◌-◌, ◌≤◌, ◌<◌, ◌≡◌, ◌≢◌, refl, ap, List, [], ◌∷◌, ◌++◌, none, some, arith, ltb,
  leb, ◌==◌, length, take, set, length-set, length-shift_down, take-set, take-shift_down, All,
  All-append, All-remove_at, All-map, remove_at, ℤ, pos, negsuc, inl, inr, Bool-cases, ◌∙◌, ltb→lt,
  ==_iff, if◌then◌else◌, ◌⊎◌,
}
use free_cli.Chat.{chat_init}
use free_cli.Session.{
  Session, SessionManager, max_sessions, zero_session, sm_init, copy_name, if_unset, sm_new_session,
  in_range, sm_select, active_after, remove_valid, sm_remove,
}

-- The sessions in use, in order.
abbrev pub view : SessionManager → List Session
view sm = take sm.count sm.sessions

-- -1 with no session, and else the index of one.
abbrev pub ActiveFits : ℤ → ℕ → Type 0
ActiveFits (pos a) count = a < count
ActiveFits (negsuc n) count = (n ≡ 0) × (count ≡ 0)

-- No two sessions share an id.
abbrev pub DistinctIds : List Session → Type 0
DistinctIds [] = Unit {0}
DistinctIds (s ∷ ss) = All (λ t. s.id ≢ t.id) ss × DistinctIds ss

pub record IsValid (sm : SessionManager) : Type 0 where
  pub slots : length sm.sessions ≡ max_sessions
  pub within : sm.count ≤ max_sessions
  pub active_fits : ActiveFits sm.active sm.count
  pub below : All (λ s. s.id < sm.next_id) (view sm)
  pub distinct : DistinctIds (view sm)

pub sm_init-IsValid : IsValid sm_init
unfolding sm_init
sm_init-IsValid = record {
  slots = refl;
  within = omega arith;
  active_fits = (refl, refl);
  below = tt;
  distinct = tt;
}

DistinctIds-snoc :
    (ss : List Session) (s : Session)
    → All (λ t. t.id < s.id) ss
    → DistinctIds ss
    → DistinctIds (ss ++ s ∷ [])
DistinctIds-snoc [] s b d = (tt, tt)
DistinctIds-snoc (t ∷ ss) s b d = (
  All-append (λ u. t.id ≢ u.id) ss (s ∷ []) d.0 ((λ e. omega arith), tt),
  DistinctIds-snoc ss s b.1 d.1,
)

DistinctIds-remove_at : (i : ℕ) (ss : List Session) → DistinctIds ss → DistinctIds (remove_at i ss)
DistinctIds-remove_at i [] d = d
DistinctIds-remove_at zero (s ∷ ss) d = d.1
DistinctIds-remove_at (suc i) (s ∷ ss) d =
    (All-remove_at (λ t. s.id ≢ t.id) i ss d.0, DistinctIds-remove_at i ss d.1)

pub if_unset-ActiveFits :
    (a : ℤ) (count : ℕ) → ActiveFits a count → ActiveFits (if_unset a count) (count + 1)
if_unset-ActiveFits (pos a) count h = omega arith
if_unset-ActiveFits (negsuc zero) count h = omega arith
if_unset-ActiveFits (negsuc (suc n)) count h = absurd (omega arith)

-- The view after a new session.
pub view-new :
    (sm : SessionManager) (s : Session)
    → length sm.sessions ≡ max_sessions
    → sm.count < max_sessions
    → take (sm.count + 1) (set sm.sessions sm.count s) ≡ view sm ++ s ∷ []
view-new sm s h k =
    let e : sm.count + 1 ≡ suc sm.count = omega arith in
    rw e (take-set sm.count sm.sessions s (omega arith))

pub view-remove :
    (sm : SessionManager) (i : ℕ)
    → length sm.sessions ≡ max_sessions
    → sm.count ≤ max_sessions
    → i < sm.count
    → view (remove_valid sm i) ≡ remove_at i (view sm)
unfolding remove_valid
view-remove sm i h k l =
    let e : suc (sm.count - 1) ≡ sm.count = omega arith in
    take-shift_down i (sm.count - 1 - i) (sm.count - 1) sm.sessions zero_session (omega arith)
      (omega arith)
    ∙ ap (λ n. remove_at i (take n sm.sessions)) e

pub new-IsValid :
    (sm : SessionManager) (name : List ℕ) → IsValid sm → IsValid (sm_new_session sm name).0
unfolding sm_new_session
new-IsValid sm name v = elim (Bool-cases (leb max_sessions sm.count)) [
  | inl full ↦ rw full v
  | inr free ↦
      let s : Session = record { id = sm.next_id; name = copy_name name; chat = chat_init } in
      let grew = view-new sm s v.slots (ground arith) in
      rw free (record {
        slots = length-set sm.sessions sm.count s ∙ v.slots;
        within = ground arith;
        active_fits = if_unset-ActiveFits sm.active sm.count v.active_fits;
        below = rw grew (
            All-append (λ t. t.id < sm.next_id + 1) (view sm) (s ∷ [])
              (All-map (λ t. t.id < sm.next_id) (λ t. t.id < sm.next_id + 1) (view sm)
                (λ t h. omega arith) v.below)
              (omega arith, tt));
        distinct = rw grew (DistinctIds-snoc (view sm) s v.below v.distinct);
      })
]

-- An index is refused, or is that of a session in use.
pub in_range_cases :
    (index : ℤ) (count : ℕ)
    → (in_range index count ≡ none)
      ⊎ ((i : ℕ) × (in_range index count ≡ some i) × (index ≡ pos i) × (i < count))
unfolding in_range
in_range_cases (negsuc n) count = inl refl
in_range_cases (pos i) count = elim (Bool-cases (ltb i count)) [
  | inl e ↦ inr (i, rw e, refl, ltb→lt i count e)
  | inr e ↦ inl (rw e)
]

pub select-IsValid : (sm : SessionManager) (index : ℤ) → IsValid sm → IsValid (sm_select sm index)
unfolding sm_select
select-IsValid sm index v = elim (in_range_cases index sm.count) [
  | inl e ↦ rw (e, sm_select) v
  | inr (i, e, _, h) ↦
      rw (e, sm_select)
        (record {
          slots = v.slots;
          within = v.within;
          active_fits = h;
          below = v.below;
          distinct = v.distinct;
        })
]

last_or_same :
    (i count : ℕ) → 0 < count → ActiveFits (if ltb i count then pos i else pos (count - 1)) count
last_or_same i count p = elim (Bool-cases (ltb i count)) [
  | inl e ↦ rw e (ltb→lt i count e)
  | inr e ↦ rw e (omega arith)
]

active_after-ActiveFits :
    (a : ℤ) (i count : ℕ)
    → 0 < count
    → i ≤ count
    → ActiveFits a (count + 1)
    → ActiveFits (active_after a i count) count
unfolding active_after
active_after-ActiveFits (pos a) i count p l h = elim (Bool-cases (ltb i a)) [
  | inl e ↦ rw e (ground arith)
  | inr e ↦ rw e (elim (Bool-cases (a == i)) [
    | inl f ↦ rw f (last_or_same i count p)
    | inr f ↦ rw f (ground arith)
  ])
]
active_after-ActiveFits (negsuc n) i count p l h = absurd (omega arith)

pub remove_valid-IsValid :
    (sm : SessionManager) (i : ℕ) → IsValid sm → i < sm.count → IsValid (remove_valid sm i)
unfolding remove_valid
remove_valid-IsValid sm i v h =
    let less = view-remove sm i v.slots v.within h in
    record {
      slots = (length-shift_down (sm.count - 1 - i) i sm.sessions zero_session ∙ v.slots);
      within = omega (arith, v.within);
      active_fits = remaining;
      below = rw less (All-remove_at (λ s. s.id < sm.next_id) i (view sm) v.below);
      distinct = rw less (DistinctIds-remove_at i (view sm) v.distinct);
    }
  where
    remaining :
        ActiveFits
          (if sm.count - 1 == 0 then negsuc 0 else active_after sm.active i (sm.count - 1))
          (sm.count - 1)
    remaining = elim (Bool-cases (sm.count - 1 == 0)) [
      | inl e ↦ rw e (refl, (==_iff (sm.count - 1) 0).0 e)
      | inr e ↦ rw e (
          active_after-ActiveFits sm.active i (sm.count - 1) (ground arith) (omega arith)
            (let back : sm.count - 1 + 1 ≡ sm.count = omega arith in rw back v.active_fits))
    ]

remove-IsValid : (sm : SessionManager) (index : ℤ) → IsValid sm → IsValid (sm_remove sm index).0
unfolding sm_remove
remove-IsValid sm index v = elim (in_range_cases index sm.count) [
  | inl e ↦ rw (e, sm_remove) v
  | inr (i, e, _, h) ↦ rw (e, sm_remove) (remove_valid-IsValid sm i v h)
]

-- The calls that change a session manager, with any arguments.
pub data Call : Type 0 where
  new : List ℕ → Call
  select : ℤ → Call
  remove : ℤ → Call

unfoldable pub run : SessionManager → List Call → SessionManager
run sm [] = sm
run sm (new name ∷ cs) = run (sm_new_session sm name).0 cs
run sm (select index ∷ cs) = run (sm_select sm index) cs
run sm (remove index ∷ cs) = run (sm_remove sm index).0 cs

run-IsValid : (sm : SessionManager) (cs : List Call) → IsValid sm → IsValid (run sm cs)
unfolding run
run-IsValid sm [] v = v
run-IsValid sm (new name ∷ cs) v = run-IsValid (sm_new_session sm name).0 cs (new-IsValid sm name v)
run-IsValid sm (select index ∷ cs) v =
    run-IsValid (sm_select sm index) cs (select-IsValid sm index v)
run-IsValid sm (remove index ∷ cs) v =
    run-IsValid (sm_remove sm index).0 cs (remove-IsValid sm index v)

pub new-next_id :
    (sm : SessionManager) (name : List ℕ) → (sm_new_session sm name).0.next_id ≤ sm.next_id + 1
unfolding sm_new_session
new-next_id sm name = elim (Bool-cases (leb max_sessions sm.count)) [
  | inl full ↦ rw full (omega arith)
  | inr free ↦ rw free (omega arith)
]

pub select-next_id : (sm : SessionManager) (index : ℤ) → (sm_select sm index).next_id ≡ sm.next_id
unfolding sm_select
select-next_id sm index = elim (in_range_cases index sm.count) [
  | inl e ↦ rw (e, sm_select) refl
  | inr (i, e, _, h) ↦ rw (e, sm_select) refl
]

remove-next_id : (sm : SessionManager) (index : ℤ) → (sm_remove sm index).0.next_id ≡ sm.next_id
unfolding sm_remove remove_valid
remove-next_id sm index = elim (in_range_cases index sm.count) [
  | inl e ↦ rw (e, sm_remove) refl
  | inr (i, e, _, h) ↦ rw (e, sm_remove) refl
]

-- Each call takes one id at most.
run-next_id : (sm : SessionManager) (cs : List Call) → (run sm cs).next_id ≤ sm.next_id + length cs
unfolding run
run-next_id sm [] = omega arith
run-next_id sm (new name ∷ cs) =
    omega (arith, run-next_id (sm_new_session sm name).0 cs, new-next_id sm name)
run-next_id sm (select index ∷ cs) =
    omega (arith, run-next_id (sm_select sm index) cs, select-next_id sm index)
run-next_id sm (remove index ∷ cs) =
    omega (arith, run-next_id (sm_remove sm index).0 cs, remove-next_id sm index)

-- After fewer than 2^31 - 1 calls, in any order and with any arguments, at most 32 sessions are in
-- use, the active index is one of them (or -1 if there are none), no two of them share an id, and
-- the next id is at most 2^31 - 1, so that the int that counts the ids has not overflowed.
pub session_run-IsValid :
    (cs : List Call)
    → length cs < 2147483647
    → IsValid (run sm_init cs) × ((run sm_init cs).next_id ≤ 2147483647)
unfolding sm_init
session_run-IsValid cs few =
    (run-IsValid sm_init cs sm_init-IsValid, omega (arith, run-next_id sm_init cs))
