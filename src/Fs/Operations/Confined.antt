-- ===== src/Fs/Operations/Confined.antt =====
-- What an operation of src/workers/fs_worker.c may do to the file system, and what it answers.
use free_cli.Base.{
  ℕ, ◌≡◌, refl, sym, subst, Bool, true, false, not, List, [], ◌∷◌, Option, none, some,
  if◌then◌else◌, bytes, Bool-cases, Option-cases, inl, inr,
}
use free_cli.Worker.{BusMsg}
use free_cli.Fs.{FileOs, CJson}
use free_cli.Fs.Resolve.{Within, fs_resolve-Within}
use free_cli.Fs.Operations.{
  Sent, progress, asked, result, failure, Answer, string_arg, ok_text, describe, with_approval,
  create_resolved, op_create_file,
}

module _ {F V : Type 0} (os : FileOs F) (json : CJson V) (root : List ℕ) where
  -- A write of the file at the path, or its removal.
  pub data Change (path : List ℕ) : (F → F × Bool) → Type 0 where
    writes : (content : List ℕ) → Change path (λ f. os.write f path content)
    removes : Change path (λ f. os.remove f path)

  -- An operation on `fs` reads only, or finds no slot, or asks and is denied, or asks for a change of one path of the
  -- sandbox, is granted it and makes it; the last thing it sends is its one result.
  pub data Behaves (fs : F) (ask : Answer F) : F × List Sent → Type 0 where
    reads : (success : Bool) (text : List ℕ) → Behaves fs ask (fs, result success text ∷ [])
    reads_slowly :
        (note : List ℕ) (success : Bool) (text : List ℕ)
        → Behaves fs ask (fs, progress note ∷ result success text ∷ [])
    is_full :
        (text : List ℕ) → ask.claimed ≡ false → Behaves fs ask (ask.after, result false text ∷ [])
    is_denied :
        (verb path text : List ℕ)
        → ask.claimed ≡ true
        → ask.granted ≡ false
        → Behaves fs ask
            (ask.after, asked (describe os json root verb path) ∷ result false text ∷ [])
    changes :
        (verb path text : List ℕ) (change : F → F × Bool)
        → ask.claimed ≡ true
        → ask.granted ≡ true
        → Within root path
        → Change path change
        → Behaves fs ask (
          (change ask.after).0,
          asked (describe os json root verb path) ∷ result (change ask.after).1 text ∷ [],
        )

  result_ok :
      (fs : F) (ask : Answer F) (verb path failed : List ℕ) (change : F → F × Bool) (r : F × Bool)
      → r ≡ change ask.after
      → ask.claimed ≡ true
      → ask.granted ≡ true
      → Within root path
      → Change path change
      → Behaves fs ask (
        r.0,
        asked (describe os json root verb path)
            ∷ (if r.1 then result true (ok_text os json root path) else failure failed)
            ∷ [],
      )
  result_ok fs ask verb path failed change (f, true) e q g w c =
      subst
        (λ (r : F × Bool). Behaves fs ask (
          r.0,
          asked (describe os json root verb path) ∷ result r.1 (ok_text os json root path) ∷ [],
        ))
        (sym e) (changes verb path (ok_text os json root path) change q g w c)
  result_ok fs ask verb path failed change (f, false) e q g w c =
      subst
        (λ (r : F × Bool).
          Behaves fs ask (r.0, asked (describe os json root verb path) ∷ result r.1 failed ∷ []))
        (sym e) (changes verb path failed change q g w c)

  with_approval-Behaves :
      (fs : F) (ask : Answer F) (verb path denied failed : List ℕ) (change : F → F × Bool)
      → Within root path
      → Change path change
      → Behaves fs ask (
          with_approval os json root
            (describe os json root verb path)
            ask
            change
            path
            denied
            failed)
  unfolding with_approval
  with_approval-Behaves fs ask verb path denied failed change w c = elim (Bool-cases ask.claimed) [
    | inr n ↦ subst (λ b. Family b ask.granted) (sym n) (is_full denied n)
    | inl q ↦
        subst (λ b. Family b ask.granted) (sym q)
          (elim (Bool-cases ask.granted) [
            | inl g ↦
                subst (Family true) (sym g)
                  (result_ok fs ask verb path failed change (change ask.after) refl q g w c)
            | inr g ↦ subst (Family true) (sym g) (is_denied verb path denied q g)
          ])
  ]
    where
      Family : Bool → Bool → Type 0
      Family claimed granted = Behaves fs ask (
          if not claimed
          then (ask.after, failure denied ∷ [])
          else if granted
          then (
            (change ask.after).0,
            asked (describe os json root verb path)
                ∷ (if (change ask.after).1
                    then result true (ok_text os json root path)
                    else failure failed)
                ∷ [],
          )
          else (ask.after, asked (describe os json root verb path) ∷ failure denied ∷ []))

  create_resolved-Behaves :
      (fs : F) (ask : Answer F) (content : List ℕ) (path : Option (List ℕ))
      → ((p : List ℕ) → path ≡ some p → Within root p)
      → Behaves fs ask (create_resolved os json root fs ask content path)
  unfolding create_resolved
  create_resolved-Behaves fs ask content none w = reads false _
  create_resolved-Behaves fs ask content (some path) w = elim (Option-cases (os.stat fs path)) [
    | inr (st, e) ↦ rw (e, create_resolved) (reads false _)
    | inl e ↦
        rw (e, create_resolved)
          (with_approval-Behaves fs ask (bytes "Create file: ") path _ _ _ (w path refl)
            (writes content))
  ]

  pub op_create_file-Behaves :
      (fs : F) (ask : Answer F) (msg : BusMsg)
      → Behaves fs ask (op_create_file os json root fs ask msg)
  unfolding op_create_file
  op_create_file-Behaves fs ask msg =
      elim (Option-cases (string_arg os json root msg (bytes "path"))) [
        | inl e ↦ rw (e, op_create_file) (reads false _)
        | inr (req, e) ↦
            rw (e, op_create_file)
              (create_resolved-Behaves fs ask _ _ (λ p. fs_resolve-Within os fs root req p true))
      ]
