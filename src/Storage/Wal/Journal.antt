-- ===== src/Storage/Wal/Journal.antt =====
-- What the log holds while records are appended to it, and what recovery makes of it.
use nova_db.Base.{ℕ, ◌+◌, ◌≡◌, refl, sym, ap, ◌∙◌, ltb, List, [], ◌∷◌, ◌++◌, inl, inr}
use nova_db.Base.{
  arith, length, length-append, take, drop, take-append-drop, append-nil, append_assoc, Bool, true,
  false, Bool-cases,
}
use nova_db.Base.Bytes.{Bytes}
use nova_db.Core.Error.{Result, ok, >>=-eq-ok}
use nova_db.Wire.{Wire}
use nova_db.Storage.Format.{NbfRecord, encode}
use nova_db.Storage.Recovery.Replay.{encode_log}
use nova_db.Storage.Recovery.Startup.{encode_segments}
use nova_db.Storage.Wal.{
  Writer, write_all, WriteAheadLog, SyncMode, always, never, rotate_for, rotate_segment,
  write_record, sync,
}

-- The records of a log: those of the sealed segments, and those of the active one.
pub record Journal : Type 0 where
  pub sealed : List (List NbfRecord)
  pub active : List NbfRecord

-- The log holds the journal: in the sealed files, and in the active file with the writer's buffer
-- behind it. With SyncMode always the buffer is empty.
pub record IsLog {H : Type 0} (x : Wire H) (j : Journal) (w : WriteAheadLog) : Type 0 where
  pub sealed_log : encode_segments x j.sealed ≡ ok w.sealed
  pub active_log : encode_log x j.active ≡ ok (w.active_file.file ++ w.active_file.buffer)
  pub size_log : w.current_segment_size ≡ length (w.active_file.file ++ w.active_file.buffer)
  pub synced : w.sync_mode ≡ always → w.active_file.buffer ≡ []

-- One record more, in a new segment if the active one is full.
abbrev pub extend : Bool → NbfRecord → Journal → Journal
extend true r j = record { sealed = j.sealed ++ j.active ∷ []; active = r ∷ [] }
extend false r j = record j { active = j.active ++ r ∷ [] }

encode_log-snoc :
    {H : Type 0} (x : Wire H) (rs : List NbfRecord) (r : NbfRecord) {log bytes : Bytes}
    → encode_log x rs ≡ ok log
    → encode x r ≡ ok bytes
    → encode_log x (rs ++ r ∷ []) ≡ ok (log ++ bytes)
unfolding encode_log
encode_log-snoc x [] r {log} {bytes} e er =
    let nil : [] ≡ log = cc in
    rw er (rw (← nil) (ap (λ (b : Bytes). (let o : Result Bytes = ok b in o)) (append-nil bytes)))
encode_log-snoc x (q ∷ rs) r {log} {bytes} e er =
    let (a, ea, e₁) = >>=-eq-ok (encode x q) _ e in
    let (b, eb, k) = >>=-eq-ok (encode_log x rs) _ e₁ in
    let cut : a ++ b ≡ log = cc in
    rw ea (rw (encode_log-snoc x rs r eb er) (rw (← cut) (rw append_assoc)))

pub encode_segments-snoc :
    {H : Type 0} (x : Wire H) (rss : List (List NbfRecord)) (rs : List NbfRecord)
    {logs : List Bytes} {log : Bytes}
    → encode_segments x rss ≡ ok logs
    → encode_log x rs ≡ ok log
    → encode_segments x (rss ++ rs ∷ []) ≡ ok (logs ++ log ∷ [])
unfolding encode_segments
encode_segments-snoc x [] rs {logs} {log} e er = let nil : [] ≡ logs = cc in rw er (rw (← nil))
encode_segments-snoc x (q ∷ rss) rs {logs} {log} e er =
    let (a, ea, e₁) = >>=-eq-ok (encode_log x q) _ e in
    let (b, eb, k) = >>=-eq-ok (encode_segments x rss) _ e₁ in
    let cut : a ∷ b ≡ logs = cc in rw ea (rw (encode_segments-snoc x rss rs eb er) (rw (← cut)))

-- what the writer holds, in the file or in the buffer, is what was written
write_all_lem :
    (spill : Bytes → ℕ) (bytes : Bytes) (w : Writer)
    → (write_all spill bytes w).file ++ (write_all spill bytes w).buffer
      ≡ (w.file ++ w.buffer) ++ bytes
write_all_lem spill bytes w =
    let p = w.buffer ++ bytes in
    append_assoc w.file (take (spill p) p) (drop (spill p) p)
    ∙ ap (λ t. w.file ++ t) (take-append-drop (spill p) p)
    ∙ sym (append_assoc w.file w.buffer bytes)

sync_keeps : (m : SyncMode) (w : Writer) → (sync m w).file ++ (sync m w).buffer ≡ w.file ++ w.buffer
sync_keeps always w = append-nil (w.file ++ w.buffer)
sync_keeps never w = refl

sync_empties : (m : SyncMode) (w : Writer) → m ≡ always → (sync m w).buffer ≡ []
sync_empties always w h = refl
sync_empties never w h = absurd (cc h)

module _ {H : Type 0} (x : Wire H) where
  rotate_segment-IsLog :
      (j : Journal) (w : WriteAheadLog)
      → IsLog x j w
      → IsLog x (record { sealed = j.sealed ++ j.active ∷ []; active = [] }) (rotate_segment w)
  unfolding rotate_segment
  rotate_segment-IsLog j w l = record {
    sealed_log = encode_segments-snoc x j.sealed j.active l.sealed_log l.active_log;
    active_log = unfold encode_log in refl;
    size_log = refl;
    synced = λ h. refl;
  }

  write_record-IsLog :
      (spill : Bytes → ℕ) (j : Journal) (w : WriteAheadLog) (r : NbfRecord) (bytes : Bytes)
      → IsLog x j w
      → encode x r ≡ ok bytes
      → IsLog x (extend false r j) (write_record spill bytes w)
  write_record-IsLog spill j w r bytes l e =
      let held =
        sync_keeps w.sync_mode (write_all spill bytes w.active_file)
        ∙ write_all_lem spill bytes w.active_file in
      record {
        sealed_log = l.sealed_log;
        active_log = rw held (encode_log-snoc x j.active r l.active_log e);
        size_log = rw held (
            omega (
              arith,
              l.size_log,
              length-append (w.active_file.file ++ w.active_file.buffer) bytes,
            ));
        synced = sync_empties w.sync_mode (write_all spill bytes w.active_file);
      }

  pub write-IsLog :
      (spill : Bytes → ℕ) (j : Journal) (w : WriteAheadLog) (r : NbfRecord) (bytes : Bytes)
      → IsLog x j w
      → encode x r ≡ ok bytes
      → (full : Bool) × IsLog x
          (extend full r j)
          (write_record spill bytes (rotate_for (length bytes) w))
  write-IsLog spill j w r bytes l e =
      elim (Bool-cases (ltb w.segment_size_limit (w.current_segment_size + length bytes))) [
        | inl full ↦
            (true, rw full (write_record-IsLog spill _ _ r bytes (rotate_segment-IsLog j w l) e))
        | inr fits ↦ (false, rw fits (write_record-IsLog spill j w r bytes l e))
      ]
