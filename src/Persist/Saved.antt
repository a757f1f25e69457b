-- ===== src/Persist/Saved.antt =====
-- What the files hold after persist_save_all of src/ui/persist.c.
use free_cli.Base.{
  ℕ, zero, suc, ◌≤◌, ◌<◌, ◌≡◌, ◌≢◌, refl, sym, ◌∙◌, subst, List, [], ◌∷◌, none, some, arith, take,
  get_elem?, get_elem?-take, pos, inl, inr, Option-cases, All,
}
use native.Mathlib.Decide.{ℕ_discrete}
use mathlib.Core.Option
use free_cli.Session.{Session, SessionManager}
use free_cli.Session.Invariant.{IsValid, DistinctIds}
use free_cli.Session.Refine.{in_range_pos}
use free_cli.Fs.{CJson}
use free_cli.Persist.{
  Files, Env, index_path, session_path, index_json, session_json, ensure_dirs, save_index, save_one,
  persist_save_session, save_sessions, persist_save_all,
}
use free_cli.Persist.Paths.{session_path_injective, session_path-ne-index_path}

-- A disk that takes every write: the file then holds what was written, and every other what it
-- held. A directory that is made leaves the files.
pub record FilesLaws {F : Type 0} (os : Files F) : Type 0 where
  pub read-write_same :
      (fs : F) (path bytes : List ℕ) → os.read (os.write fs path bytes) path ≡ some bytes
  pub read-write_other :
      (fs : F) (path bytes other : List ℕ)
      → other ≢ path
      → os.read (os.write fs path bytes) other ≡ os.read fs other
  pub read-mkdir :
      (fs : F) (dir path bytes : List ℕ)
      → os.read fs path ≡ some bytes
      → os.read (os.mkdir fs dir) path ≡ some bytes

get_elem?-lt :
    (xs : List Session) (i n : ℕ) (s : Session) → get_elem? (take n xs) i ≡ some s → i < n
get_elem?-lt xs i zero s e = cc
get_elem?-lt [] i (suc n) s e = cc
get_elem?-lt (x ∷ xs) zero (suc n) s e = omega arith
get_elem?-lt (x ∷ xs) (suc i) (suc n) s e = omega (arith, get_elem?-lt xs i n s e)

All-get {κ} :
    (P : Session → Type κ) (xs : List Session) (i : ℕ) (s : Session)
    → All P xs
    → get_elem? xs i ≡ some s
    → P s
All-get P [] i s a e = cc
All-get P (x ∷ xs) zero s a e = subst P (Option.some-injective x s e) a.0
All-get P (x ∷ xs) (suc i) s a e = All-get P xs i s a.1 e

-- Two places hold sessions of two ids.
DistinctIds-get :
    (xs : List Session) (i j : ℕ) (s t : Session)
    → DistinctIds xs
    → i < j
    → get_elem? xs i ≡ some s
    → get_elem? xs j ≡ some t
    → s.id ≢ t.id
DistinctIds-get [] i j s t d h e f = cc
DistinctIds-get (x ∷ xs) i zero s t d h e f = absurd (omega arith)
DistinctIds-get (x ∷ xs) zero (suc j) s t d h e f =
    subst (λ (u : Session). u.id ≢ t.id) (Option.some-injective x s e)
      (All-get (λ (u : Session). x.id ≢ u.id) xs j t d.0 f)
DistinctIds-get (x ∷ xs) (suc i) (suc j) s t d h e f =
    DistinctIds-get xs i j s t d.1 (omega arith) e f

All-each :
    (P : Session → Type 0) (xs : List Session)
    → ((i : ℕ) (s : Session) → get_elem? xs i ≡ some s → P s)
    → All P xs
All-each P [] f = tt
All-each P (x ∷ xs) f = (f 0 x refl, All-each P xs (λ i. f (suc i)))

module _ {F V : Type 0} (os : Files F) (laws : FilesLaws os) (json : CJson V) (env : Env)
    (sm : SessionManager) (v : IsValid sm) (ids : sm.next_id ≤ 2147483648) where
  small :
      (i : ℕ) (s : Session) → get_elem? (take sm.count sm.sessions) i ≡ some s → s.id < 2147483648
  small i s e = omega (
    arith,
    All-get (λ (u : Session). u.id < sm.next_id) (take sm.count sm.sessions) i s v.below e,
  )

  -- A file that no session has keeps what it holds.
  write_keeps :
      (fs : F) (path out q d : List ℕ)
      → q ≢ path
      → os.read fs q ≡ some d
      → os.read (os.write (ensure_dirs os json env fs) path out) q ≡ some d
  unfolding ensure_dirs
  write_keeps fs path out q d n e =
      laws.read-write_other _ path out q n ∙ laws.read-mkdir _ _ q d (laws.read-mkdir fs _ q d e)

  save_at :
      (fs : F) (n : ℕ) (t : Session)
      → get_elem? (take sm.count sm.sessions) n ≡ some t
      → persist_save_session os json env fs sm (pos n)
        ≡ os.write
            (ensure_dirs os json env fs)
            (session_path env t.id)
            (json.print (session_json json t))
  unfolding persist_save_session save_one
  save_at fs n t e =
      let h = get_elem?-lt sm.sessions n sm.count t e in
      rw (in_range_pos n sm.count h, persist_save_session)
        (rw (sym (get_elem?-take sm.count n sm.sessions h) ∙ e) refl)

  save_none :
      (fs : F) (n : ℕ)
      → n < sm.count
      → get_elem? (take sm.count sm.sessions) n ≡ none
      → persist_save_session os json env fs sm (pos n) ≡ fs
  unfolding persist_save_session save_one
  save_none fs n h e =
      rw (in_range_pos n sm.count h, persist_save_session)
        (rw (sym (get_elem?-take sm.count n sm.sessions h) ∙ e) refl)

  -- One turn of the loop keeps a file that is not the turn's own.
  turn_keeps :
      (fs : F) (n : ℕ) (q d : List ℕ)
      → n < sm.count
      → ((t : Session)
          → get_elem? (take sm.count sm.sessions) n ≡ some t
          → q ≢ session_path env t.id)
      → os.read fs q ≡ some d
      → os.read (persist_save_session os json env fs sm (pos n)) q ≡ some d
  turn_keeps fs n q d h ne e = elim (Option-cases (get_elem? (take sm.count sm.sessions) n)) [
    | inl g ↦ rw (save_none fs n h g) e
    | inr (t, g) ↦ rw (save_at fs n t g) (write_keeps fs (session_path env t.id) _ q d (ne t g) e)
  ]

  index_kept :
      (n : ℕ) (fs : F) (d : List ℕ)
      → n ≤ sm.count
      → os.read fs (index_path env) ≡ some d
      → os.read (save_sessions os json env fs sm n) (index_path env) ≡ some d
  unfolding save_sessions
  index_kept zero fs d h e = e
  index_kept (suc n) fs d h e =
      turn_keeps (save_sessions os json env fs sm n) n (index_path env) d (omega arith)
        (λ t g p. session_path-ne-index_path env t.id (small n t g) (sym p))
        (index_kept n fs d (omega arith) e)

  session_saved :
      (n i : ℕ) (fs : F) (s : Session)
      → n ≤ sm.count
      → i < n
      → get_elem? (take sm.count sm.sessions) i ≡ some s
      → os.read (save_sessions os json env fs sm n) (session_path env s.id)
        ≡ some (json.print (session_json json s))
  unfolding save_sessions
  session_saved zero i fs s h k e = absurd (omega arith)
  session_saved (suc n) i fs s h k e = elim (ℕ_discrete i n) [
    | yes same ↦
        rw
          (save_at (save_sessions os json env fs sm n) n s
            (subst (λ j. get_elem? (take sm.count sm.sessions) j ≡ some s) same e))
          (laws.read-write_same _ _ _)
    | no other ↦
        turn_keeps (save_sessions os json env fs sm n) n (session_path env s.id) _ (omega arith)
          (λ t g p.
            DistinctIds-get (take sm.count sm.sessions) i n s t v.distinct (omega arith) e g
              (session_path_injective env s.id t.id (small i s e) (small n t g) p))
          (session_saved n i fs s (omega arith) (omega arith) e)
  ]

  pub index_read :
      (fs : F)
      → os.read (persist_save_all os json env fs sm) (index_path env)
        ≡ some (json.print (index_json json sm))
  unfolding persist_save_all save_index
  index_read fs =
      index_kept sm.count (save_index os json env (ensure_dirs os json env fs) sm) _ (omega arith)
        (laws.read-write_same _ _ _)

  pub sessions_read :
      (fs : F)
      → All
          (λ (s : Session).
            os.read (persist_save_all os json env fs sm) (session_path env s.id)
            ≡ some (json.print (session_json json s)))
          (take sm.count sm.sessions)
  unfolding persist_save_all
  sessions_read fs = All-each _ (take sm.count sm.sessions) (λ i s e.
      session_saved sm.count i (save_index os json env (ensure_dirs os json env fs) sm) s
        (omega arith) (get_elem?-lt sm.sessions i sm.count s e) e)
