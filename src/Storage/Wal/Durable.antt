-- ===== src/Storage/Wal/Durable.antt =====
-- Appended records survive a restart.
use nova_db.Base.{ℕ, ◌≡◌, refl, sym, ap, ◌∙◌, subst, List, [], ◌∷◌, ◌++◌, Option, some}
use nova_db.Base.{arith, All, append-nil, append_assoc, length, true, false}
use nova_db.Base.Bytes.{Bytes}
use nova_db.Core.Error.{Result, ok, err, ◌>>=◌}
use nova_db.Core.Outcome.{Outcome, done}
use nova_db.Wire.{Wire, IsWire}
use nova_db.Storage.Format.{NbfRecord, IsRecord, encode}
use nova_db.Storage.Format.RoundTrip.{decode-encode}
use nova_db.Storage.Recovery.{RecoveredState, replay_record, recover, new}
use nova_db.Storage.Recovery.Replay.{replay_all, encode_log}
use nova_db.Storage.Recovery.Startup.{encode_segments, replay_segments, recover-encode_segments}
use nova_db.Storage.Wal.{
  WriteAheadLog, always, no_fault, on_disk, Mutation, record_for, next_sequence, rotate_for,
  write_record, rotate_segment, append, append_all, records_from, set_sequence, open_wal,
}
use nova_db.Storage.Wal.Journal.{Journal, IsLog, extend, write-IsLog, encode_segments-snoc}

abbrev pub concat : List (List NbfRecord) → List NbfRecord
concat [] = []
concat (rs ∷ rss) = rs ++ concat rss

-- The log holds these records, in their order, in some division into segments.
pub record Holds {H : Type 0} (x : Wire H) (rs : List NbfRecord) (w : WriteAheadLog) : Type 0 where
  pub journal : Journal
  pub is_log : IsLog x journal w
  pub order : concat journal.sealed ++ journal.active ≡ rs

concat-snoc :
    (rss : List (List NbfRecord)) (rs : List NbfRecord) → concat (rss ++ rs ∷ []) ≡ concat rss ++ rs
concat-snoc [] rs = append-nil rs
concat-snoc (q ∷ rss) rs =
    ap (λ t. q ++ t) (concat-snoc rss rs) ∙ sym (append_assoc q (concat rss) rs)

extend-concat :
    (full : _) (r : NbfRecord) (j : Journal)
    → concat (extend full r j).sealed ++ (extend full r j).active
      ≡ (concat j.sealed ++ j.active) ++ r ∷ []
extend-concat true r j = ap (λ (t : List NbfRecord). t ++ r ∷ []) (concat-snoc j.sealed j.active)
extend-concat false r j = sym (append_assoc (concat j.sealed) j.active (r ∷ []))

>>=-cong :
    {A B : Type 0} (m : Result A) {f g : A → Result B}
    → ((a : A) → f a ≡ g a)
    → (m >>= f) ≡ (m >>= g)
>>=-cong (ok a) h = h a
>>=-cong (err e) h = refl

>>=-assoc :
    {A B C : Type 0} (m : Result A) (f : A → Result B) (g : B → Result C)
    → (m >>= λ a. f a >>= g) ≡ (m >>= f >>= g)
>>=-assoc (ok a) f g = refl
>>=-assoc (err e) f g = refl

pub replay_all-append :
    {D : Type 0} (js : Bytes → Option D) (ps qs : List NbfRecord) (s : RecoveredState D)
    → replay_all js (ps ++ qs) s ≡ (replay_all js ps s >>= replay_all js qs)
unfolding replay_all
replay_all-append js [] qs s = refl
replay_all-append js (p ∷ ps) qs s =
    >>=-cong (replay_record js p s) (λ t. replay_all-append js ps qs t)
    ∙ >>=-assoc (replay_record js p s) (λ t. replay_all js ps t) (replay_all js qs)

replay_segments-concat :
    {D : Type 0} (js : Bytes → Option D) (rss : List (List NbfRecord)) (s : RecoveredState D)
    → replay_segments js rss s ≡ replay_all js (concat rss) s
unfolding replay_segments
replay_segments-concat js [] s = unfold replay_all in refl
replay_segments-concat js (rs ∷ rss) s =
    >>=-cong (replay_all js rs s) (λ t. replay_segments-concat js rss t)
    ∙ sym (replay_all-append js rs (concat rss) s)

All-split : (ps qs : List NbfRecord) → All IsRecord (ps ++ qs) → All IsRecord ps × All IsRecord qs
All-split [] qs v = (tt, v)
All-split (p ∷ ps) qs (v, vs) = let (a, b) = All-split ps qs vs in ((v, a), b)

All-concat :
    (rss : List (List NbfRecord)) → All IsRecord (concat rss) → All (λ rs. All IsRecord rs) rss
All-concat [] v = tt
All-concat (rs ∷ rss) v = let (a, b) = All-split rs (concat rss) v in (a, All-concat rss b)

-- What an append leaves behind.
pub record IsAppended {H : Type 0} (x : Wire H) (now : ℕ) (a : Mutation) (rs : List NbfRecord)
    (w : WriteAheadLog) (o : Outcome ℕ × WriteAheadLog) : Type 0 where
  pub returned : o.0 ≡ done (next_sequence w)
  pub holds : Holds x (rs ++ record_for a (next_sequence w) now ∷ []) o.1
  pub same_mode : o.1.sync_mode ≡ w.sync_mode
  pub sequenced : o.1.current_sequence ≡ next_sequence w

module _ {H : Type 0} (x : Wire H) (spill : Bytes → ℕ) where
  append_ok :
      (now : ℕ) (a : Mutation) (w : WriteAheadLog) (bytes : Bytes)
      → encode x (record_for a (next_sequence w) now) ≡ ok bytes
      → append spill x no_fault now a w ≡ (
        done (next_sequence w),
        write_record spill bytes (rotate_for (length bytes) (set_sequence (next_sequence w) w)),
      )
  unfolding append
  append_ok now a w bytes e = rw (e, append)

  rotate_for-keeps :
      (n : ℕ) (w : WriteAheadLog)
      → ((rotate_for n w).sync_mode ≡ w.sync_mode)
        × ((rotate_for n w).current_sequence ≡ w.current_sequence)
  unfolding rotate_segment
  rotate_for-keeps n w = (ground arith, ground arith)

  pub append-Holds :
      (now : ℕ) (a : Mutation) (rs : List NbfRecord) (w : WriteAheadLog)
      → IsWire x
      → IsRecord (record_for a (next_sequence w) now)
      → Holds x rs w
      → IsAppended x now a rs w (append spill x no_fault now a w)
  append-Holds now a rs w laws v h =
      let (bytes, e, d) = decode-encode laws v in
      let n = next_sequence w in
      let same : IsLog x h.journal (set_sequence n w) = record {
        sealed_log = h.is_log.sealed_log;
        active_log = h.is_log.active_log;
        size_log = h.is_log.size_log;
        synced = h.is_log.synced;
      } in
      let (full, l) =
        write-IsLog x spill h.journal (set_sequence n w) (record_for a n now) bytes same e in
      let keeps = rotate_for-keeps (length bytes) (set_sequence n w) in
      rw (append_ok now a w bytes e) (record {
        returned = refl;
        holds = record {
          journal = extend full (record_for a n now) h.journal;
          is_log = l;
          order =
              extend-concat full (record_for a n now) h.journal
              ∙ ap (λ (t : List NbfRecord). t ++ record_for a n now ∷ []) h.order;
        };
        same_mode = keeps.0;
        sequenced = keeps.1;
      })

  append_all-Holds :
      (todo : List (ℕ × Mutation)) (rs : List NbfRecord) (w : WriteAheadLog)
      → IsWire x
      → All IsRecord (records_from w.current_sequence todo)
      → Holds x rs w
      → Holds x (rs ++ records_from w.current_sequence todo) (append_all spill x todo w)
        × ((append_all spill x todo w).sync_mode ≡ w.sync_mode)
  unfolding records_from append_all
  append_all-Holds [] rs w laws v h = (rw append-nil h, refl)
  append_all-Holds ((now, a) ∷ todo) rs w laws (v, vs) h =
      let n = next_sequence w in
      let r = record_for a n now in
      let w' = (append spill x no_fault now a w).1 in
      let step = append-Holds now a rs w laws v h in
      let (held, mode) =
        append_all-Holds todo (rs ++ r ∷ []) w' laws (rw step.sequenced vs) step.holds in
      let order : (rs ++ r ∷ []) ++ records_from w'.current_sequence todo
          ≡ rs ++ (r ∷ records_from n todo) =
        append_assoc rs (r ∷ []) _ ∙ ap (λ m. rs ++ (r ∷ records_from m todo)) step.sequenced in
      (subst (λ l. Holds x l (append_all spill x todo w')) order held, mode ∙ step.same_mode)

pub All-snoc :
    (rs : List NbfRecord) {r : NbfRecord}
    → All IsRecord rs
    → IsRecord r
    → All IsRecord (rs ++ r ∷ [])
All-snoc [] vs v = (v, tt)
All-snoc (q ∷ rs) (u, vs) v = (u, All-snoc rs vs v)

pub new-Holds : {H : Type 0} (x : Wire H) (limit : ℕ) → Holds x [] (open_wal [] always limit)
unfolding open_wal encode_log encode_segments
new-Holds x limit = record {
  journal = record { sealed = []; active = [] };
  is_log = record { sealed_log = refl; active_log = refl; size_log = refl; synced = λ h. refl };
  order = refl;
}

pub Holds-recover :
    {D H : Type 0} (js : Bytes → Option D) (x : Wire H) (rs : List NbfRecord) (w : WriteAheadLog)
    (s : RecoveredState D)
    → IsWire x
    → All IsRecord rs
    → w.sync_mode ≡ always
    → Holds x rs w
    → replay_all js rs new ≡ ok s
    → recover js x (on_disk w) ≡ some (ok (s, on_disk w))
Holds-recover js x rs w s laws v m h rp =
    let j = h.journal in
    let rss = j.sealed ++ j.active ∷ [] in
    let flat : concat rss ≡ rs = concat-snoc j.sealed j.active ∙ h.order in
    let active : encode_log x j.active ≡ ok w.active_file.file =
      h.is_log.active_log
      ∙ (rw (h.is_log.synced m) (
          ap (λ (b : Bytes). (let o : Result Bytes = ok b in o))
            (append-nil w.active_file.file))) in
    recover-encode_segments js x rss (on_disk w) s laws (All-concat rss (rw flat v))
      (encode_segments-snoc x j.sealed j.active h.is_log.sealed_log active)
      (replay_segments-concat js rss new ∙ rw flat rp)

-- Let a log with SyncMode always hold records in range that replay without an error. Appending one
-- more such record, without a fault, returns its sequence number, and a restart right after it
-- recovers the state of the earlier records with the new one replayed last.
pub append_durable :
    {D H : Type 0} (js : Bytes → Option D) (x : Wire H) (spill : Bytes → ℕ) (now : ℕ) (a : Mutation)
    (rs : List NbfRecord) (w : WriteAheadLog) (s s' : RecoveredState D)
    → IsWire x
    → Holds x rs w
    → w.sync_mode ≡ always
    → All IsRecord rs
    → IsRecord (record_for a (next_sequence w) now)
    → replay_all js rs new ≡ ok s
    → replay_record js (record_for a (next_sequence w) now) s ≡ ok s'
    → ((append spill x no_fault now a w).0 ≡ done (next_sequence w))
      × (recover js x (on_disk (append spill x no_fault now a w).1)
          ≡ some (ok (s', on_disk (append spill x no_fault now a w).1)))
append_durable js x spill now a rs w s s' laws h m vs v rp last =
    let r = record_for a (next_sequence w) now in
    let step = append-Holds x spill now a rs w laws v h in
    let all : replay_all js (rs ++ r ∷ []) new ≡ ok s' =
      replay_all-append js rs (r ∷ []) new ∙ rw rp (unfold replay_all in rw last) in
    (
      step.returned,
      Holds-recover js x (rs ++ r ∷ []) _ s' laws (All-snoc rs vs v) (step.same_mode ∙ m) step.holds
          all,
    )

-- With SyncMode always and no fault injected, records in range that replay without an error,
-- appended to a new log, over any number of segments, are all recovered by a restart, in their
-- order and with their sequence numbers, and the files stay as they are.
pub append_all-recover :
    {D H : Type 0} (js : Bytes → Option D) (x : Wire H) (spill : Bytes → ℕ) (limit : ℕ)
    (todo : List (ℕ × Mutation)) (s : RecoveredState D)
    → IsWire x
    → All IsRecord (records_from 0 todo)
    → replay_all js (records_from 0 todo) new ≡ ok s
    → recover js x (on_disk (append_all spill x todo (open_wal [] always limit)))
      ≡ some (ok (s, on_disk (append_all spill x todo (open_wal [] always limit))))
unfolding open_wal
append_all-recover js x spill limit todo s laws v rp =
    let (held, mode) =
      append_all-Holds x spill todo [] (open_wal [] always limit) laws v (new-Holds x limit) in
    Holds-recover js x (records_from 0 todo) _ s laws v mode held rp
