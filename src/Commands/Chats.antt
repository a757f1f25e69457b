-- ===== src/Commands/Chats.antt =====
-- Changes of the active session (src/ui/commands.c) keep the sessions valid.
use free_cli.Base.{
  length, arith, ◌≤◌, ℕ, zero, suc, ◌<◌, ◌≡◌, ◌≢◌, ap, sym, ◌∙◌, subst, List, [], ◌∷◌, none, some,
  arith, take, set, get_elem?, replicate, length-set, All, All-set, inl, inr, Option-cases,
}
use mathlib.Core.Option
use free_cli.Chat.Buffer as Buffer
use free_cli.Chat.Buffer.{chat_init-IsValid, chat_add-Appends}
use free_cli.Session.{Session, SessionManager, max_sessions, sm_init, zero_session}
use free_cli.Session.Invariant.{IsValid, DistinctIds, sm_init-IsValid, in_range_cases}
use free_cli.Commands.{update_active}

All-take-set {κ} :
    (P : Session → Type κ) (k : ℕ) (xs : List Session) (i : ℕ) (x y : Session)
    → get_elem? xs i ≡ some x
    → (P x → P y)
    → All P (take k xs)
    → All P (take k (set xs i y))
All-take-set P zero xs i x y e f a = tt
All-take-set P (suc k) [] i x y e f a = tt
All-take-set P (suc k) (z ∷ xs) zero x y e f a =
    (f (subst P (Option.some-injective z x e) a.0), a.1)
All-take-set P (suc k) (z ∷ xs) (suc i) x y e f a = (a.0, All-take-set P k xs i x y e f a.1)

DistinctIds-take-set :
    (k : ℕ) (xs : List Session) (i : ℕ) (x y : Session)
    → get_elem? xs i ≡ some x
    → y.id ≡ x.id
    → DistinctIds (take k xs)
    → DistinctIds (take k (set xs i y))
DistinctIds-take-set zero xs i x y e s d = tt
DistinctIds-take-set (suc k) [] i x y e s d = tt
DistinctIds-take-set (suc k) (z ∷ xs) zero x y e s d =
    let same : z.id ≡ y.id = ap (λ (t : Session). t.id) (Option.some-injective z x e) ∙ sym s in
    (subst (λ n. All (λ (t : Session). n ≢ t.id) (take k xs)) same d.0, d.1)
DistinctIds-take-set (suc k) (z ∷ xs) (suc i) x y e s d = (
  All-take-set (λ t. z.id ≢ t.id) k xs i x y e (λ n p. n (p ∙ s)) d.0,
  DistinctIds-take-set k xs i x y e s d.1,
)

pub get_elem?-All :
    (P : Session → Type 0) (xs : List Session) (i : ℕ) (x : Session)
    → All P xs
    → get_elem? xs i ≡ some x
    → P x
get_elem?-All P [] i x a e = absurd (elsewhere e)
  where
    elsewhere : ¬ (none ≡ some x)
    elsewhere e = cc
get_elem?-All P (z ∷ xs) zero x a e = subst P (Option.some-injective z x e) a.0
get_elem?-All P (z ∷ xs) (suc i) x a e = get_elem?-All P xs i x a.1 e

-- The name of a session fits its array of 64 bytes with the terminator.
abbrev pub NameFits : Session → Type 0
NameFits s = length s.name ≤ 63

-- The sessions are valid, and in every slot the buffer is and the name fits.
pub record ChatsValid (sm : SessionManager) : Type 0 where
  pub sessions_valid : IsValid sm
  pub chats_valid : All (λ (s : Session). Buffer.IsValid s.chat) sm.sessions
  pub names : All NameFits sm.sessions

pub changed-ChatsValid :
    (sm : SessionManager) (i : ℕ) (x y : Session)
    → ChatsValid sm
    → get_elem? sm.sessions i ≡ some x
    → y.id ≡ x.id
    → Buffer.IsValid y.chat
    → NameFits y
    → ChatsValid (record sm { sessions = set sm.sessions i y })
changed-ChatsValid sm i x y v e s c n = record {
  sessions_valid = record {
    slots = length-set sm.sessions i y ∙ v.sessions_valid.slots;
    within = v.sessions_valid.within;
    active_fits = v.sessions_valid.active_fits;
    below =
        All-take-set (λ t. t.id < sm.next_id) sm.count sm.sessions i x y e
          (λ l. subst (λ n. n < sm.next_id) (sym s) l) v.sessions_valid.below;
    distinct = DistinctIds-take-set sm.count sm.sessions i x y e s v.sessions_valid.distinct;
  };
  chats_valid = All-set (λ (t : Session). Buffer.IsValid t.chat) sm.sessions i y v.chats_valid c;
  names = All-set NameFits sm.sessions i y v.names n;
}

pub update_active-ChatsValid :
    (sm : SessionManager) (f : Session → Session)
    → ChatsValid sm
    → ((s : Session) → (f s).id ≡ s.id)
    → ((s : Session) → Buffer.IsValid s.chat → Buffer.IsValid (f s).chat)
    → ((s : Session) → NameFits s → NameFits (f s))
    → ChatsValid (update_active sm f)
unfolding update_active
update_active-ChatsValid sm f v s c n = elim (in_range_cases sm.active sm.count) [
  | inl e ↦ rw (e, update_active) v
  | inr (i, e, _, _) ↦
      rw (e, update_active)
        (elim (Option-cases (get_elem? sm.sessions i)) [
          | inl g ↦ rw g v
          | inr (x, g) ↦ rw g (
              changed-ChatsValid sm i x (f x) v g (s x)
                (c x (
                  get_elem?-All (λ (t : Session). Buffer.IsValid t.chat) sm.sessions i x
                    v.chats_valid g))
                (n x (get_elem?-All NameFits sm.sessions i x v.names g)))
        ])
]

All-replicate : (P : Session → Type 0) (n : ℕ) (x : Session) → P x → All P (replicate n x)
All-replicate P zero x p = tt
All-replicate P (suc n) x p = (p, All-replicate P n x p)

pub sm_init-ChatsValid : ChatsValid sm_init
unfolding sm_init
sm_init-ChatsValid = record {
  sessions_valid = sm_init-IsValid;
  chats_valid =
      All-replicate (λ (t : Session). Buffer.IsValid t.chat) max_sessions zero_session
        (record { room = omega arith; tight = omega arith });
  names = All-replicate NameFits max_sessions zero_session (omega arith);
}
