-- ===== src/Fs/Resolve.antt =====
-- The paths that fs_resolve of src/workers/fs_worker.c lets through.
use free_cli.Base.{
  ℕ, ◌≡◌, subst, Bool, true, List, [], ◌∷◌, ◌++◌, Option, none, some, arith, ◌==◌, length,
  Bool-cases, inl, inr,
}
use mathlib.Core.Option.{some-injective}
use free_cli.Fs.{FileOs, slash, strip_slashes, inside, join_path, bind, enforce, fs_resolve}

-- The root itself, or the root, a slash and a path below it.
pub data Within (root : List ℕ) : List ℕ → Type 0 where
  at_root : Within root root
  below : (rest : List ℕ) → Within root (root ++ slash ∷ rest)

below-cons : (r : ℕ) (root path : List ℕ) → Within root path → Within (r ∷ root) (r ∷ path)
below-cons r root path at_root = at_root
below-cons r root path (below rest) = below rest

inside_head :
    (r c : ℕ) (rs cs : List ℕ) → inside (r ∷ rs) (c ∷ cs) ≡ true → (r ≡ c) × (inside rs cs ≡ true)
unfolding inside
inside_head r c rs cs h = ground arith

slash_head : (c : ℕ) (cs : List ℕ) → inside [] (c ∷ cs) ≡ true → slash ≡ c
unfolding inside
slash_head c cs h = ground arith

root_longer : (r : ℕ) (rs : List ℕ) → ¬ (inside (r ∷ rs) [] ≡ true)
unfolding inside
root_longer r rs h = cc

pub inside-Within : (root path : List ℕ) → inside root path ≡ true → Within root path
inside-Within [] [] h = at_root
inside-Within [] (c ∷ cs) h = subst (λ x. Within [] (x ∷ cs)) (slash_head c cs h) (below cs)
inside-Within (r ∷ rs) [] h = absurd (root_longer r rs h)
inside-Within (r ∷ rs) (c ∷ cs) h =
    let (e, h') = inside_head r c rs cs h in
    subst (λ x. Within (r ∷ rs) (x ∷ cs)) e (below-cons r rs cs (inside-Within rs cs h'))

enforce-inside :
    (root resolved path : List ℕ) → enforce root resolved ≡ some path → inside root path ≡ true
unfolding enforce
enforce-inside root resolved path h = ground (arith)

-- Every path that fs_resolve returns is the sandbox root or lies below it.
pub fs_resolve-Within :
    {F : Type 0} (os : FileOs F) (fs : F) (root requested path : List ℕ) (for_create : Bool)
    → fs_resolve os fs root requested for_create ≡ some path
    → Within root path
unfolding fs_resolve
fs_resolve-Within os fs root requested path for_create h =
    elim (Bool-cases (length (strip_slashes requested) == 0)) [
      | inl e ↦ subst (Within root) (some-injective _ _ (rw e at h)) at_root
      | inr e ↦
          inside-Within root path
            (bind-enforce (join_path root (strip_slashes requested)) _ (rw e at h))
    ]
  where
    bind-enforce :
        (cand : Option (List ℕ)) (f : List ℕ → Option (List ℕ))
        → bind cand (λ c. bind (f c) (λ r. enforce root r)) ≡ some path
        → inside root path ≡ true
    bind-enforce none f h = cc
    bind-enforce (some c) f h = bound (f c) h
      where
        bound :
            (r : Option (List ℕ))
            → bind r (λ r. enforce root r) ≡ some path
            → inside root path ≡ true
        bound none h = cc
        bound (some r) h = enforce-inside root r path h
