-- ===== src/Firewall/Revision/Effect.antt =====
-- What the operations of the revision store do to the disk, src/core/firewall/revision_store.cpp.
use sasd_gatehold.Prelude.{
  ℕ, ◌≤◌, ◌≡◌, ◌≢◌, inl, inr, Bool, true, false, Option, none, some, [], ◌∷◌, ◌++◌, arith, refl, ap,
  ◌∙◌, Option-cases,
}
use sasd_gatehold.Text.{Bytes}
use sasd_gatehold.Text.Decimal.{
  max_u64, to_string, from_chars, from_chars-to_string, from_chars_bound,
}
use sasd_gatehold.Host.{Os, tick, File, Disk, World, Opened, opened, absent, unopened, open_outcome}
use sasd_gatehold.Firewall.Transaction.Effect.{AtMost}
use sasd_gatehold.Firewall.Revision.Store.{
  marked_last_known_good, last_known_good_found, read_ok, write_ok, pointer_ok, put_marker,
  marker_file, revision_file, chop_feed, load, mark_last_known_good, last_known_good, store,
  usable_root, find_marker, check_marker, parse_marker, read_marker,
}

chop_feed-append : (s : Bytes) → chop_feed (s ++ b'\n' ∷ []) ≡ some s
unfolding chop_feed
chop_feed-append [] = refl
chop_feed-append (c ∷ []) = ground arith
chop_feed-append (c ∷ d ∷ s) = ground (arith, chop_feed-append (d ∷ s))

module _ (os : Os) where
  pub load-quiet :
      (r : ℕ) (w : World) → ((load os r w).1.disk ≡ w.disk) × ((load os r w).1.past ≡ w.past)
  unfolding load
  load-quiet r w = ground arith

  -- What `load` returns is a revision's file.
  pub load-loaded :
      (r : ℕ) (w : World)
      → read_ok (load os r w).0 ≡ true
      → (f : File) × (w.disk.revisions r ≡ some f) × ((load os r w).0.content ≡ f.content)
  unfolding load
  load-loaded r w h = elim (Option-cases (w.disk.revisions r)) [
    | inl e ↦ ground arith
    | inr (f, e) ↦ (f, e, ground arith)
  ]

  load-status :
      (r : ℕ) (w : World)
      → ((load os r w).0.status ≢ marked_last_known_good)
        × ((load os r w).0.status ≢ last_known_good_found)
  unfolding load
  load-status r w = ground arith

  pub mark-AtMost :
      (r : ℕ) (w : World)
      → AtMost (put_marker (some (marker_file r)) w.disk) w (mark_last_known_good os r w).1
  unfolding mark_last_known_good
  mark-AtMost r w = ground (arith, load-quiet r w)

  -- If `mark_last_known_good` reports success, the marker is the file of that revision and
  -- nothing else on disk has changed, in one atomic change.
  pub mark-marked :
      (r : ℕ) (w : World)
      → pointer_ok (mark_last_known_good os r w).0 ≡ true
      → ((mark_last_known_good os r w).1.disk ≡ put_marker (some (marker_file r)) w.disk)
        × ((mark_last_known_good os r w).1.past ≡ w.disk ∷ w.past)
  unfolding mark_last_known_good
  mark-marked r w h = ground (arith, load-quiet r w, load-status r w)

  check_marker-quiet :
      (o : Option ℕ) (w : World)
      → ((check_marker os o w).1.disk ≡ w.disk) × ((check_marker os o w).1.past ≡ w.past)
  unfolding check_marker
  check_marker-quiet none w = (refl, refl)
  check_marker-quiet (some r) w = load-quiet r w

  parse_marker-quiet :
      (o : Option Bytes) (w : World)
      → ((parse_marker os o w).1.disk ≡ w.disk) × ((parse_marker os o w).1.past ≡ w.past)
  unfolding parse_marker
  parse_marker-quiet none w = (refl, refl)
  parse_marker-quiet (some s) w = check_marker-quiet (from_chars max_u64 s) w

  read_marker-quiet :
      (o : Opened) (w : World)
      → ((read_marker os o w).1.disk ≡ w.disk) × ((read_marker os o w).1.past ≡ w.past)
  unfolding read_marker
  read_marker-quiet absent w = (refl, refl)
  read_marker-quiet unopened w = (refl, refl)
  read_marker-quiet (opened f) w = grind (arith, parse_marker-quiet)

  usable_root-quiet :
      (w : World) → ((usable_root os w).1.disk ≡ w.disk) × ((usable_root os w).1.past ≡ w.past)
  unfolding usable_root
  usable_root-quiet w = ground arith

  find_marker-quiet :
      (safe b : Bool) (w : World)
      → ((find_marker os safe b w).1.disk ≡ w.disk) × ((find_marker os safe b w).1.past ≡ w.past)
  unfolding find_marker
  find_marker-quiet safe false w = (refl, refl)
  find_marker-quiet safe true w =
      read_marker-quiet (open_outcome (os.succeeds w.clock) w.disk.marker) (tick w)

  pub last_known_good-quiet :
      (w : World)
      → ((last_known_good os w).1.disk ≡ w.disk) × ((last_known_good os w).1.past ≡ w.past)
  unfolding last_known_good
  last_known_good-quiet w = ground (
    arith,
    usable_root-quiet w,
    find_marker-quiet (usable_root os w).0.0 (usable_root os w).0.1 (usable_root os w).1,
  )

  check_marker-found :
      (r : ℕ) (w : World)
      → pointer_ok (check_marker os (some r) w).0 ≡ true
      → (check_marker os (some r) w).0.revision ≡ some r
  unfolding check_marker
  check_marker-found r w h = ground arith

  read_marker-marker :
      (r : ℕ) (w : World)
      → r ≤ max_u64
      → pointer_ok (read_marker os (opened (marker_file r)) w).0 ≡ true
      → (read_marker os (opened (marker_file r)) w).0.revision ≡ some r
  unfolding read_marker parse_marker
  read_marker-marker r w h k =
      grind (
        arith,
        chop_feed-append (to_string r),
        from_chars-to_string max_u64 r h,
        check_marker-found,
      )

  read_marker-unopened : (w : World) → pointer_ok (read_marker os unopened w).0 ≡ false
  unfolding read_marker
  read_marker-unopened w = refl

  find_marker-marker :
      (r : ℕ) (safe b : Bool) (w : World)
      → r ≤ max_u64
      → w.disk.marker ≡ some (marker_file r)
      → pointer_ok (find_marker os safe b w).0 ≡ true
      → (find_marker os safe b w).0.revision ≡ some r
  unfolding find_marker
  find_marker-marker r safe false w h m k = cc
  find_marker-marker r safe true w h m k =
      ground (arith, read_marker-marker r (tick w) h, read_marker-unopened (tick w))

  -- Where the marker is the file that `mark_last_known_good` writes for a revision that fits in
  -- 64 bits: if `last_known_good` reports success, it returns that revision.
  pub last_known_good-marker :
      (r : ℕ) (w : World)
      → r ≤ max_u64
      → w.disk.marker ≡ some (marker_file r)
      → pointer_ok (last_known_good os w).0 ≡ true
      → (last_known_good os w).0.revision ≡ some r
  unfolding last_known_good
  last_known_good-marker r w h m =
      find_marker-marker r (usable_root os w).0.0 (usable_root os w).0.1 (usable_root os w).1 h
        (ap (λ (d : Disk). d.marker) (usable_root-quiet w).0 ∙ m)

  check_marker-bound :
      (o : Option ℕ) (w : World) (p : ℕ)
      → ((k : ℕ) → o ≡ some k → k ≤ max_u64)
      → (check_marker os o w).0.revision ≡ some p
      → p ≤ max_u64
  unfolding check_marker
  check_marker-bound none w p h e = cc
  check_marker-bound (some k) w p h e = ground (arith, h k refl)

  parse_marker-bound :
      (o : Option Bytes) (w : World) (p : ℕ)
      → (parse_marker os o w).0.revision ≡ some p
      → p ≤ max_u64
  unfolding parse_marker
  parse_marker-bound none w p e = cc
  parse_marker-bound (some s) w p e =
      check_marker-bound (from_chars max_u64 s) w p (from_chars_bound max_u64 s) e

  read_marker-bound :
      (o : Opened) (w : World) (p : ℕ) → (read_marker os o w).0.revision ≡ some p → p ≤ max_u64
  unfolding read_marker
  read_marker-bound absent w p e = cc
  read_marker-bound unopened w p e = cc
  read_marker-bound (opened f) w p e = grind (arith, parse_marker-bound)

  find_marker-bound :
      (safe b : Bool) (w : World) (p : ℕ)
      → (find_marker os safe b w).0.revision ≡ some p
      → p ≤ max_u64
  unfolding find_marker
  find_marker-bound safe false w p e = cc
  find_marker-bound safe true w p e =
      read_marker-bound (open_outcome (os.succeeds w.clock) w.disk.marker) (tick w) p e

  -- The last known good revision fits in 64 bits.
  pub last_known_good-bound :
      (w : World) (p : ℕ) → (last_known_good os w).0.revision ≡ some p → p ≤ max_u64
  unfolding last_known_good
  last_known_good-bound w p e =
      find_marker-bound (usable_root os w).0.0 (usable_root os w).0.1 (usable_root os w).1 p e

  -- A revision that exists before `store` is the same after it, whatever revision and candidate
  -- it is given and whatever it reports.
  pub store-immutable :
      (r k : ℕ) (candidate : Option File) (f : File) (w : World)
      → w.disk.revisions k ≡ some f
      → (store os r candidate w).1.disk.revisions k ≡ some f
  unfolding store
  store-immutable r k candidate f w h = ground arith

  -- If `store` reports success, the candidate is a private file, and the revision holds its
  -- bytes.
  pub store-stored :
      (r : ℕ) (candidate : Option File) (w : World)
      → write_ok (store os r candidate w).0 ≡ true
      → (f : File) × (candidate ≡ some f)
        × (f.private ≡ true)
        × ((store os r candidate w).1.disk.revisions r ≡ some (revision_file f.content))
  unfolding store
  store-stored r candidate w h = ground arith
