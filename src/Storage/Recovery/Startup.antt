-- ===== src/Storage/Recovery/Startup.antt =====
-- Whole runs of recovery: several segments, and a log that is written on after a crash.
use nova_db.Base.{ℕ, suc, ◌<◌, ◌≡◌, refl, ◌∙◌, List, [], ◌∷◌, ◌++◌}
use nova_db.Base.{Option, some, arith, ◌==◌, length, length-append, false, All}
use nova_db.Base.Bytes.{Bytes, read_exact, bytes_eq}
use nova_db.Core.Error.{Result, ok, err, ◌>>=◌, >>=-eq-ok}
use nova_db.Wire.{Wire, IsWire, checksum}
use nova_db.Storage.Format.{
  NbfRecord, IsRecord, encode, decode, corrupted, record_body, nbf_magic, header_fields,
  record_tail,
}
use nova_db.Storage.Format.RoundTrip.{encode-IsRecord}
use nova_db.Storage.Recovery.{
  RecoveredState, recover_loop, recover_segment, recover_segments, recover, new,
}
use nova_db.Storage.Recovery.Replay.{
  replay_all, encode_log, loop_behind, recover_segment-encode_log,
}

-- The bytes of each segment, given the records that were appended to it.
unfoldable pub encode_segments : {H : Type 0} → Wire H → List (List NbfRecord) → Result (List Bytes)
encode_segments x [] = ok []
encode_segments x (rs ∷ rss) = do
  log ← encode_log x rs
  logs ← encode_segments x rss
  ok (log ∷ logs)

-- The segments' records, replayed one segment after the other.
unfoldable pub replay_segments :
    {D : Type 0}
    → (Bytes → Option D)
    → List (List NbfRecord)
    → RecoveredState D
    → Result (RecoveredState D)
replay_segments js [] s = ok s
replay_segments js (rs ∷ rss) s = do s ← replay_all js rs s; replay_segments js rss s

-- An encoded record begins with the magic bytes.
starts_with_magic :
    {H : Type 0} (x : Wire H) (r : NbfRecord) (bytes : Bytes)
    → IsRecord r
    → encode x r ≡ ok bytes
    → (tail : Bytes) × (bytes ≡ nbf_magic ++ tail)
unfolding record_body
starts_with_magic x r bytes v e = (
  (header_fields x r ++ record_tail x r) ++ x.write 4 (checksum x (record_body x r)),
  cc (encode-IsRecord x v),
)

module _ {D H : Type 0} (js : Bytes → Option D) (x : Wire H) (laws : IsWire x) where
  recover_segments-encode_segments :
      (rss : List (List NbfRecord)) (files : List Bytes) (s s' : RecoveredState D)
      → All (λ rs. All IsRecord rs) rss
      → encode_segments x rss ≡ ok files
      → replay_segments js rss s ≡ ok s'
      → recover_segments js x files s ≡ some (ok (s', files))
  unfolding recover_segments encode_segments replay_segments
  recover_segments-encode_segments [] files s s' v e rp =
      let nil : files ≡ [] = cc in let same : s ≡ s' = cc in rw nil (rw same)
  recover_segments-encode_segments (rs ∷ rss) files s s' v e rp =
      let (log, el, e₁) = >>=-eq-ok (encode_log x rs) _ e in
      let (logs, els, k) = >>=-eq-ok (encode_segments x rss) _ e₁ in
      let (s₁, first, others) = >>=-eq-ok (replay_all js rs s) _ rp in
      let cut : files ≡ log ∷ logs = cc in
      rw cut (
        rw (recover_segment-encode_log js x rs log s s₁ laws v.0 el first, recover_segments)
          (rw (recover_segments-encode_segments rss logs s₁ s' v.1 els others)))

  glued :
      (front next back c : Bytes) (r : NbfRecord) (tail : Bytes)
      → record_body x r ++ c ≡ front ++ back
      → next ≡ nbf_magic ++ tail
      → 0 < length front
      → length front < 4
      → decode x (front ++ next) ≡ err corrupted
  unfolding decode read_exact bytes_eq record_body
  glued [] next back c r tail e n lo hi = absurd (omega arith)
  glued (a ∷ []) next back c r tail e n lo hi = let ea : 78 ≡ a = cc in rw n (rw (← ea) refl)
  glued (a ∷ b ∷ []) next back c r tail e n lo hi =
      let ea : 78 ≡ a = cc in let eb : 79 ≡ b = cc in rw n (rw (← ea, ← eb) refl)
  glued (a ∷ b ∷ d ∷ []) next back c r tail e n lo hi =
      let ea : 78 ≡ a = cc in
      let eb : 79 ≡ b = cc in let ed : 86 ≡ d = cc in rw n (rw (← ea, ← eb, ← ed) refl)
  glued (a ∷ b ∷ d ∷ f ∷ g) next back c r tail e n lo hi = absurd (omega arith)

  loop_corrupt :
      (fuel : ℕ) (file rest : Bytes) (last : ℕ) (s : RecoveredState D)
      → decode x rest ≡ err corrupted
      → recover_loop js x (suc fuel) file rest last s ≡ some (err corrupted)
  unfolding recover_loop
  loop_corrupt fuel file rest last s d = rw (d, recover_loop)

  segment_corrupt :
      (file : Bytes) (s : RecoveredState D)
      → 0 < length file
      → recover_loop js x (suc (length file)) file file 0 s ≡ some (err corrupted)
      → recover_segment js x file s ≡ some (err corrupted)
  unfolding recover_segment
  segment_corrupt [] s h l = absurd (omega arith)
  segment_corrupt (b ∷ file) s h l =
      let full : (suc (length file) == 0) ≡ false = ground arith in
      rw (l, recover_segment) (rw full)

-- Recovery of a log that was written whole, from records in range that replay without an error,
-- replays every record of every segment, in the order of the segments, cuts no tail and leaves the
-- files as they are.
pub recover-encode_segments :
    {D H : Type 0} (js : Bytes → Option D) (x : Wire H) (rss : List (List NbfRecord))
    (files : List Bytes) (s' : RecoveredState D)
    → IsWire x
    → All (λ rs. All IsRecord rs) rss
    → encode_segments x rss ≡ ok files
    → replay_segments js rss new ≡ ok s'
    → recover js x files ≡ some (ok (s', files))
unfolding recover
recover-encode_segments js x rss files s' laws v e rp =
    recover_segments-encode_segments js x laws rss files new s' v e rp

-- Where a crash left one to three bytes of an unfinished record behind whole ones that replay
-- without an error, and a record is then appended behind them, recovery refuses the segment as
-- corrupted.
pub recover_segment_glued :
    {D H : Type 0} (js : Bytes → Option D) (x : Wire H) (r next : NbfRecord) (rs : List NbfRecord)
    (log front back bytes : Bytes) (s s' : RecoveredState D)
    → IsWire x
    → All IsRecord rs
    → IsRecord r
    → IsRecord next
    → encode_log x rs ≡ ok log
    → encode x r ≡ ok (front ++ back)
    → encode x next ≡ ok bytes
    → 0 < length front
    → length front < 4
    → replay_all js rs s ≡ ok s'
    → recover_segment js x (log ++ (front ++ bytes)) s ≡ some (err corrupted)
recover_segment_glued js x r next rs log front back bytes s s' laws vs v vn e er en lo hi rp =
    let whole : record_body x r ++ x.write 4 (checksum x (record_body x r)) ≡ front ++ back =
      cc (encode-IsRecord x v) in
    let (tail, split) = starts_with_magic x next bytes vn en in
    segment_corrupt js x laws (log ++ (front ++ bytes)) s
      (omega (arith, length-append log (front ++ bytes), length-append front bytes))
      (loop_behind js x laws rs log (front ++ bytes) s s' vs e rp
        ∙ loop_corrupt js x laws _ _ (front ++ bytes) _ s'
            (glued js x laws front bytes back _ r tail whole split lo hi))
