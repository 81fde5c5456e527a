-- ===== src/Storage/Recovery/Replay.antt =====
-- Recovery of a log that was written whole, and of one whose last write was cut off.
use nova_db.Base.{
  ℕ, suc, ◌+◌, ◌-◌, ◌≤◌, ◌<◌, ◌≡◌, refl, sym, ap, ◌∙◌, subst, List, [], ◌∷◌, ◌++◌, inl, inr,
}
use nova_db.Base.{
  Option, none, some, arith, ltb, false, ◌==◌, if◌then◌else◌, length, length-append, take-append,
}
use nova_db.Base.{append_assoc, append-nil, All, Bool-cases}
use nova_db.Base.Bytes.{Bytes, read_exact}
use nova_db.Core.Error.{Result, ok, err, ◌>>=◌, >>=-eq-ok}
use nova_db.Wire.{Wire, IsWire}
use nova_db.Storage.Format.{NbfRecord, IsRecord, encode, decode, torn}
use nova_db.Storage.Format.RoundTrip.{decode-encode}
use nova_db.Storage.Format.Torn.{decode-torn}
use nova_db.Storage.Recovery.{set_len, RecoveredState, replay_record, recover_loop, recover_segment}

-- What the log should mean: each record replayed in turn.
unfoldable pub replay_all :
    {D : Type 0}
    → (Bytes → Option D)
    → List NbfRecord
    → RecoveredState D
    → Result (RecoveredState D)
replay_all js [] s = ok s
replay_all js (r ∷ rs) s = do s ← replay_record js r s; replay_all js rs s

-- The bytes that a run of appends leaves in a segment.
unfoldable pub encode_log : {H : Type 0} → Wire H → List NbfRecord → Result Bytes
encode_log x [] = ok []
encode_log x (r ∷ rs) = do a ← encode x r; b ← encode_log x rs; ok (a ++ b)

module _ {D H : Type 0} (js : Bytes → Option D) (x : Wire H) where
  recover_loop_step :
      (fuel : ℕ) (file rest rest' : Bytes) (last : ℕ) (r : NbfRecord) (s s' : RecoveredState D)
      → decode x rest ≡ ok (some (r, rest'))
      → replay_record js r s ≡ ok s'
      → recover_loop js x (suc fuel) file rest last s
        ≡ recover_loop js x fuel file rest' (length file - length rest') s'
  unfolding recover_loop
  recover_loop_step fuel file rest rest' last r s s' d p = rw (d, recover_loop) (rw p)

  recover_loop_stop :
      (fuel : ℕ) (file rest : Bytes) (last : ℕ) (s : RecoveredState D)
      → decode x rest ≡ ok none
      → recover_loop js x (suc fuel) file rest last s ≡ some (ok (s, none))
  unfolding recover_loop
  recover_loop_stop fuel file rest last s d = rw (d, recover_loop)

  recover_loop-torn :
      (fuel : ℕ) (file rest : Bytes) (last : ℕ) (s : RecoveredState D)
      → decode x rest ≡ err torn
      → recover_loop js x (suc fuel) file rest last s
        ≡ some (ok (record s { torn_tails_truncated = s.torn_tails_truncated + 1 }, some last))
  unfolding recover_loop
  recover_loop-torn fuel file rest last s d = rw (d, recover_loop)

  -- An empty file holds no record, so the test for it changes nothing.
  recover_segment-loop :
      (file : Bytes) (s s' : RecoveredState D) (cut : Option ℕ)
      → recover_loop js x (suc (length file)) file file 0 s ≡ some (ok (s', cut))
      → recover_segment js x file s ≡ some (ok (s', set_len cut file))
  unfolding recover_segment
  recover_segment-loop [] s s' cut l =
      let stop : recover_loop js x 1 [] [] 0 s ≡ some (ok (s, none)) =
        recover_loop_stop 0 [] [] 0 s (unfold decode read_exact in refl) in
      let same : (some (ok (s, none))) ≡ some (ok (s', cut)) = sym stop ∙ l in ground (arith, same)
  recover_segment-loop (b ∷ file) s s' cut l =
      let full : (suc (length file) == 0) ≡ false = ground arith in
      rw (l, recover_segment) (rw full)

  module _ (laws : IsWire x) where
    encode_log-cons :
        {r : NbfRecord} (rs : List NbfRecord) (log : Bytes)
        → IsRecord r
        → encode_log x (r ∷ rs) ≡ ok log
        → (a b : Bytes) × (log ≡ a ++ b)
          × (encode_log x rs ≡ ok b)
          × ((rest : Bytes) → decode x (a ++ rest) ≡ ok (some (r, rest)))
    unfolding encode_log
    encode_log-cons {r} rs log v e =
        let (a, ea, da) = decode-encode laws v in
        let e' : (encode_log x rs >>= λ b. ok (a ++ b)) ≡ ok log = rw ea at e in
        let (b, eb, k) = >>=-eq-ok (encode_log x rs) _ e' in (a, b, cc, eb, da)

    -- The loop reads the records at the front of what is left, and goes on behind them.
    recover_loop-encode_log :
        (rs : List NbfRecord) (fuel : ℕ) (file rest log : Bytes) (s s' : RecoveredState D)
        → All IsRecord rs
        → encode_log x rs ≡ ok log
        → replay_all js rs s ≡ ok s'
        → recover_loop js x
            (length rs + fuel)
            file
            (log ++ rest)
            (length file - length (log ++ rest))
            s
          ≡ recover_loop js x fuel file rest (length file - length rest) s'
    unfolding replay_all
    recover_loop-encode_log [] fuel file rest log s s' v e rp =
        let nil : log ≡ [] = unfold encode_log in cc in
        let same : s ≡ s' = cc in
        rw nil (
          rw same
            (ap (λ n. recover_loop js x n file rest (length file - length rest) s') (omega arith)))
    recover_loop-encode_log (r ∷ rs) fuel file rest log s s' v e rp =
        let (a, b, cut, eb, da) = encode_log-cons rs log v.0 e in
        let (s₁, first, others) = >>=-eq-ok (replay_record js r s) _ rp in
        rw cut (
          rw append_assoc (
            ap
              (λ n.
                recover_loop js x n file (a ++ (b ++ rest))
                  (length file - length (a ++ (b ++ rest))) s)
              (omega arith)
            ∙ recover_loop_step (length rs + fuel) file (a ++ (b ++ rest)) (b ++ rest) _ r s s₁
                (da (b ++ rest)) first
            ∙ recover_loop-encode_log rs fuel file rest b s₁ s' v.1 eb others))

    length-encode_log :
        (rs : List NbfRecord) (log : Bytes)
        → All IsRecord rs
        → encode_log x rs ≡ ok log
        → length rs ≤ length log
    length-encode_log [] log v e = omega arith
    length-encode_log (r ∷ rs) log v e =
        let (a, b, cut, eb, da) = encode_log-cons rs log v.0 e in
        rw cut
          (rw length-append (omega (arith, length-encode_log rs b v.1 eb, front_pos a (da []))))
      where
        front_pos : (a : Bytes) → decode x (a ++ []) ≡ ok (some (r, [])) → 0 < length a
        front_pos [] d = absurd (unfold decode read_exact in cc d)
        front_pos (c ∷ a) d = omega arith

    -- What `recover_segment` does when its loop ends behind the whole records.
    module _ (rs : List NbfRecord) (log tail : Bytes) (s s' : RecoveredState D)
        (v : All IsRecord rs) (e : encode_log x rs ≡ ok log) (rp : replay_all js rs s ≡ ok s') where
      pub loop_behind :
          recover_loop js x (suc (length (log ++ tail))) (log ++ tail) (log ++ tail) 0 s
          ≡ recover_loop js x
              (suc (length (log ++ tail) - length rs))
              (log ++ tail)
              tail
              (length log)
              s'
      loop_behind =
          ap (λ n. recover_loop js x n (log ++ tail) (log ++ tail) 0 s)
            (omega (arith, length-encode_log rs log v e, length-append log tail))
          ∙ ap
              (λ n.
                recover_loop js x (length rs + suc (length (log ++ tail) - length rs)) (log ++ tail)
                  (log ++ tail) n s)
              (omega arith)
          ∙ recover_loop-encode_log rs _ (log ++ tail) tail log s s' v e rp
          ∙ ap
              (λ n.
                recover_loop js x (suc (length (log ++ tail) - length rs)) (log ++ tail) tail n s')
              (omega (arith, length-append log tail))

-- A segment that holds whole records is replayed record by record, and the file is left as it is.
pub recover_segment-encode_log :
    {D H : Type 0} (js : Bytes → Option D) (x : Wire H) (rs : List NbfRecord) (log : Bytes)
    (s s' : RecoveredState D)
    → IsWire x
    → All IsRecord rs
    → encode_log x rs ≡ ok log
    → replay_all js rs s ≡ ok s'
    → recover_segment js x log s ≡ some (ok (s', log))
recover_segment-encode_log js x rs log s s' laws v e rp = recover_segment-loop js x log s s' none (
    subst (λ (l : Bytes). recover_loop js x (suc (length l)) l l 0 s ≡ some (ok (s', none)))
      (append-nil log)
      (loop_behind js x laws rs log [] s s' v e rp
        ∙ recover_loop_stop js x _ (log ++ []) [] (length log) s'
            (unfold decode read_exact in refl)))

-- A crash in the middle of a write leaves the front of a record in range behind whole ones that
-- replay without an error. If the four magic bytes were written, the whole records are replayed,
-- the segment is cut back to their end and the cut is counted; if not, they are replayed and the
-- file keeps the bytes of the unfinished record.
pub recover_segment_torn :
    {D H : Type 0} (js : Bytes → Option D) (x : Wire H) (r : NbfRecord) (rs : List NbfRecord)
    (log front back : Bytes) (s s' : RecoveredState D)
    → IsWire x
    → All IsRecord rs
    → IsRecord r
    → encode_log x rs ≡ ok log
    → encode x r ≡ ok (front ++ back)
    → 0 < length back
    → replay_all js rs s ≡ ok s'
    → recover_segment js x (log ++ front) s
      ≡ some (
          ok (
            if ltb (length front) 4
            then (s', log ++ front)
            else (record s' { torn_tails_truncated = s'.torn_tails_truncated + 1 }, log)))
recover_segment_torn {D} js x r rs log front back s s' laws vs v e er more rp =
    elim (Bool-cases (ltb (length front) 4)) [
      | inl short ↦ rw short (
          recover_segment-loop js x (log ++ front) s s' none (
            loop_behind js x laws rs log front s s' vs e rp
            ∙ recover_loop_stop js x _ (log ++ front) front (length log) s'
                (rw short at (decode-torn front back laws v er more))))
      | inr long ↦ rw long (
          recover_segment-loop js x (log ++ front) s _ (some (length log)) (
            loop_behind js x laws rs log front s s' vs e rp
            ∙ recover_loop-torn js x _ (log ++ front) front (length log) s'
                (rw long at (decode-torn front back laws v er more)))
          ∙ ap
              (λ (f : Bytes).
                let o : Option (Result (RecoveredState D × Bytes)) =
                  some (ok (record s' { torn_tails_truncated = s'.torn_tails_truncated + 1 }, f)) in
                o)
              (take-append log front))
    ]
