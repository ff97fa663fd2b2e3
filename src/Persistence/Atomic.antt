-- ===== src/Persistence/Atomic.antt =====
-- Save replaces the file as a whole, or not at all.
use golectra.Base.{sym, ℕ, arith, inr, inl, some, ◌∙◌, ◌≡◌, ◌≢◌, List, String}
use golectra.Persistence.{
  flatten_snapshot, write_json_atomic, make_dir, save, fill, FileSystem, IsFileSystem, Codec,
  guarded, step, removed, closed_and_removed,
}
use golectra.Domain.{◌>>◌, ◌>>=◌, Result, ok, err, Error, Metrics, Result-cases}

module _ {W J F : Type 0} (fs : FileSystem W J) (codec : Codec J F) (path : String)
    (rely : IsFileSystem fs path) where
  -- After a call from `w`: the file holds the encoded items, or has the contents it had.
  abbrev pub Replaced : List (Metrics F) → W → Result (Unit {0}) × W → Type 0
  Replaced items w r =
      (r.0 ≡ ok tt → (j : J) × (codec.encode items ≡ ok j) × (fs.contents r.1 path ≡ some j))
      × ((e : Error) → r.0 ≡ err e → fs.contents r.1 path ≡ fs.contents w path)

  closed_and_removed_ne :
      (t : String) (w : W)
      → t ≢ path
      → fs.contents (closed_and_removed fs codec path t w) path ≡ fs.contents w path
  closed_and_removed_ne t w ne = rely.remove_ne t (fs.close t w).1 ne ∙ rely.contents-close t path w

  renamed :
      (items : List (Metrics F)) (t : String) (j : J) (w : W)
      → t ≢ path
      → codec.encode items ≡ ok j
      → fs.contents w t ≡ some j
      → Replaced items w (
          guarded fs codec path
            (step fs codec path "rename" (fs.rename t path))
            (removed fs codec path t)
            w)
  renamed items t j w ne e held = elim (Result-cases (fs.rename t path w).0) [
    | inl (u, h) ↦ rw h ((λ _. (j, e, rely.rename-ok t w h ∙ held)), (λ x p. absurd (cc p)))
    | inr (x, h) ↦ rw h (
      (λ p. absurd (cc p)),
      (λ y p. rely.remove_ne t (fs.rename t path w).1 ne ∙ rely.rename-err t w x h),
    )
  ]

  -- from the close on; `w` is the world after the write, and `w0` the one before Save
  closed :
      (items : List (Metrics F)) (t : String) (j : J) (w : W)
      → t ≢ path
      → codec.encode items ≡ ok j
      → fs.contents w t ≡ some j
      → Replaced items w (
          (guarded fs codec path
                (step fs codec path "close tmp" (fs.close t))
                (closed_and_removed fs codec path t)
              >> guarded fs codec path
                  (step fs codec path "rename" (fs.rename t path))
                  (removed fs codec path t))
            w)
  closed items t j w ne e held = elim (Result-cases (fs.close t w).0) [
    | inl (u, h) ↦
        let (done, failed) =
          renamed items t j (fs.close t w).1 ne e (rely.contents-close t t w ∙ held) in
        rw h (done, λ x p. failed x p ∙ rely.contents-close t path w)
    | inr (x, h) ↦ rw h (
      (λ p. absurd (cc p)),
      (λ y p. closed_and_removed_ne t (fs.close t w).1 ne ∙ rely.contents-close t path w),
    )
  ]

  fill_lem :
      (items : List (Metrics F)) (t : String) (w : W)
      → t ≢ path
      → Replaced items w (fill fs codec path items t w)
  unfolding fill
  fill_lem items t w ne = elim (Result-cases (codec.encode items)) [
    | inr (x, h) ↦ rw h ((λ p. absurd (cc p)), (λ y p. closed_and_removed_ne t w ne))
    | inl (j, e) ↦ elim (Result-cases (fs.write t j w).0) [
      | inr (x, h) ↦
          rw (e, h)
            (
              (λ p. absurd (cc p)),
              (λ y p. closed_and_removed_ne t (fs.write t j w).1 ne ∙ rely.write_ne t j w ne),
            )
      | inl (u, h) ↦
          let (done, failed) = closed items t j (fs.write t j w).1 ne e (rely.write-ok t j w h) in
          rw (e, h)
            (
              (λ p. let (i, e', c) = done p in (i, sym e ∙ e', c)),
              λ x p. failed x p ∙ rely.write_ne t j w ne,
            )
    ]
  ]

  make_dir_keeps : (w : W) → fs.contents (make_dir fs codec path w).1 path ≡ fs.contents w path
  unfolding make_dir
  make_dir_keeps w = ground (arith, rely.contents-mkdir_all (fs.dir path) w)

  created_lem :
      (items : List (Metrics F)) (w : W)
      → Replaced items w (
          (step fs codec path "create tmp" (fs.create_temp (fs.dir path))
              >>= fill fs codec path items)
            w)
  created_lem items w = elim (Result-cases (fs.create_temp (fs.dir path) w).0) [
    | inr (x, h) ↦ rw h ((λ p. absurd (cc p)), (λ y p. rely.contents-create_temp (fs.dir path) w))
    | inl (t, h) ↦
        let (done, failed) =
          fill_lem items t (fs.create_temp (fs.dir path) w).1
            (rely.create_temp_ne (fs.dir path) t w h) in
        rw h (done, λ x p. failed x p ∙ rely.contents-create_temp (fs.dir path) w)
  ]

  -- However its steps fail, a Save that returns no error leaves in the file the encoding of all the
  -- snapshot's metrics, and one that returns an error leaves the file's contents as they were.
  pub save_atomic :
      (gs : List (String × F)) (cs : List (String × ℕ)) (w : W)
      → Replaced (flatten_snapshot gs cs) w (save fs codec path gs cs w)
  unfolding save write_json_atomic
  save_atomic gs cs w = elim (Result-cases (make_dir fs codec path w).0) [
    | inr (x, h) ↦ rw h ((λ p. absurd (cc p)), (λ y p. make_dir_keeps w))
    | inl (u, h) ↦
        let (done, failed) = created_lem (flatten_snapshot gs cs) (make_dir fs codec path w).1 in
        rw h (done, λ x p. failed x p ∙ make_dir_keeps w)
  ]
