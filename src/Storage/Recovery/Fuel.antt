-- ===== src/Storage/Recovery/Fuel.antt =====
-- Recovery returns on any files: every record that is read takes bytes off the reader.
use mathlib.Core.Option
use nova_db.Base.{
  ℕ, zero, suc, ◌+◌, ◌≤◌, ◌<◌, ◌⊎◌, ◌-◌, ◌≡◌, refl, sym, ap, ◌∙◌, List, [], ◌∷◌, Option, none, some,
  arith, length, length-append, Bool-cases, Option-cases, inl, inr, Bool, true, false, not,
  if◌then◌else◌, ltb, ◌==◌,
}
use nova_db.Base.Bytes.{Bytes, read_exact, read_exact_split, bytes_eq}
use nova_db.Base.Text.{Text, from_utf8}
use nova_db.Core.Error.{Result, ok, err, ok_or, >>=-eq-ok, NovaError}
use nova_db.Core.DocumentId
use nova_db.Wire.{Wire, IsWire, read_be}
use nova_db.Storage.Format.{
  NbfRecord, decode, parts_checksum, read_text, read_payload, read_record, read_header, max_payload,
  torn, corrupted, nbf_magic,
}
use nova_db.Storage.Recovery.{
  RecoveredState, replay_record, recover_loop, recover_segment, recover_segments, recover, new,
}

ok-injective : {A : Type 0} {a b : A} → Result.ok a ≡ ok b → a ≡ b
ok-injective h = cc

ok_or-eq-ok : {A : Type 0} (e : NovaError) (o : Option A) {a : A} → ok_or e o ≡ ok a → o ≡ some a
ok_or-eq-ok e none h = absurd (cc)
ok_or-eq-ok e (some a) h = cc

length-read_exact :
    (n : ℕ) (s : Bytes) {a s' : Bytes} → read_exact n s ≡ some (a, s') → length s ≡ n + length s'
length-read_exact n s {a} {s'} h =
    let (cut, len) = read_exact_split n s a s' h in rw cut (omega (arith, len, length-append a s'))

Result-cases :
    {A : Type 0} (m : Result A) → ((a : A) × (m ≡ ok a)) ⊎ ((e : NovaError) × (m ≡ err e))
Result-cases (ok a) = inl (a, refl)
Result-cases (err e) = inr (e, refl)

Decoded-cases :
    {A B : Type 0} (m : Result (Option (A × B)))
    → (m ≡ ok none)
      ⊎ (((e : NovaError) × (m ≡ err e)) ⊎ ((a : A) × (b : B) × (m ≡ ok (some (a, b)))))
Decoded-cases (ok none) = inl refl
Decoded-cases (ok (some (a, b))) = inr (inr (a, b, refl))
Decoded-cases (err e) = inr (inl (e, refl))

module _ {H : Type 0} (x : Wire H) (laws : IsWire x) where
  length-read :
      (w : ℕ) (s : Bytes) {n : ℕ} {s' : Bytes}
      → x.read w s ≡ some (n, s')
      → length s ≡ w + length s'
  unfolding read_be
  length-read w s {n} {s'} h =
      let h' : read_be w s ≡ some (n, s') = sym (laws.read-read_be w s) ∙ h in
      let (p, e, k) = (Option.map-eq-some_iff _ (read_exact w s)).0 h' in
      let same : p.1 ≡ s' = cc in rw (← same) (length-read_exact w s e)

  length-read_text : (s : Bytes) {a : _} → read_text x s ≡ ok a → length a.2 ≤ length s
  unfolding read_text
  length-read_text s {a} h =
      let ((n, t), e, k) = >>=-eq-ok (ok_or torn (x.read 2 s)) _ h in
      let ((b, u), f, l) = >>=-eq-ok (ok_or torn (read_exact n t)) _ k in
      let (c, g, m) = >>=-eq-ok (ok_or corrupted (from_utf8 b)) _ l in
      let same : u ≡ a.2 = ap (λ (p : ℕ × Text × Bytes). p.2) (ok-injective m) in
      rw (← same) (
        omega (
          arith,
          length-read 2 s (ok_or-eq-ok torn _ e),
          length-read_exact n t (ok_or-eq-ok torn _ f),
        ))

  length-read_payload : (s : Bytes) {a : _} → read_payload x s ≡ ok a → length a.1 ≤ length s
  unfolding read_payload
  length-read_payload s {a} h =
      let ((n, t), e, k) = >>=-eq-ok (ok_or torn (x.read 4 s)) _ h in
      elim (Bool-cases (ltb max_payload n)) [
        | inl over ↦ absurd (cc (rw over at k))
        | inr fits ↦
            let read : read_exact n t ≡ some a = ok_or-eq-ok torn _ (rw fits at k) in
            omega (arith, length-read 4 s (ok_or-eq-ok torn _ e), length-read_exact n t read)
      ]

  shrinks : (s p q t u c : ℕ) → p ≤ s → q ≤ p → t ≤ q → u ≤ t → u ≡ 4 + c → c ≤ s
  shrinks s p q t u c h₁ h₂ h₃ h₄ h₅ = omega arith

  passes_check :
      (b : Bool) (e : NovaError) (r r' : NbfRecord) (t s' : Bytes)
      → if◌then◌else◌ {A = Result (Option (NbfRecord × Bytes))} (not b) (err e) (ok (some (r, t)))
        ≡ ok (some (r', s'))
      → t ≡ s'
  passes_check true e r r' t s' h = cc
  passes_check false e r r' t s' h = absurd (cc)

  length-read_record :
      (buf : Bytes) (hd : _) (s : Bytes) {r : NbfRecord} {s' : Bytes}
      → read_record x buf hd s ≡ ok (some (r, s'))
      → length s' ≤ length s
  unfolding read_record
  length-read_record buf hd s {r} {s'} h =
      let (p, e₁, h₁) = >>=-eq-ok (read_text x s) _ h in
      let (q, e₂, h₂) = >>=-eq-ok (read_text x p.2) _ h₁ in
      let (t, e₃, h₃) = >>=-eq-ok (read_text x q.2) _ h₂ in
      let (id, e₄, h₄) = >>=-eq-ok (DocumentId.new t.1) _ h₃ in
      let (u, e₅, h₅) = >>=-eq-ok (read_payload x t.2) _ h₄ in
      let (c, e₆, h₆) = >>=-eq-ok (ok_or torn (x.read 4 u.1)) _ h₅ in
      let calculated = parts_checksum x buf (p.0, p.1) (q.0, q.1) (t.0, id) u.0 in
      let same : c.1 ≡ s' = passes_check (c.0 == calculated) _ _ _ _ _ h₆ in
      rw (← same) (
        shrinks _ _ _ _ _ _ (length-read_text s e₁) (length-read_text p.2 e₂)
          (length-read_text q.2 e₃) (length-read_payload t.2 e₅)
          (length-read 4 u.1 (ok_or-eq-ok torn _ e₆)))

  -- A record takes bytes off the reader.
  pub length-decode :
      (s : Bytes) {r : NbfRecord} {s' : Bytes}
      → decode x s ≡ ok (some (r, s'))
      → length s' < length s
  unfolding decode
  length-decode s {r} {s'} h = elim (Option-cases (read_exact 4 s)) [
    | inl short ↦ absurd (cc (rw (short, decode) at h))
    | inr ((magic, t), e) ↦ elim (Bool-cases (bytes_eq magic nbf_magic)) [
      | inl right ↦
          let (b, f, k) =
            >>=-eq-ok (ok_or torn (read_exact 28 t)) _ (rw right at (rw (e, decode) at h)) in
          let (hd, g, l) = >>=-eq-ok (read_header x b.0) _ k in
          omega (
            arith,
            length-read_exact 4 s e,
            length-read_exact 28 t (ok_or-eq-ok torn _ f),
            length-read_record b.0 hd b.1 l,
          )
      | inr wrong ↦ absurd (cc (rw wrong at (rw (e, decode) at h)))
    ]
  ]

module _ {D H : Type 0} (js : Bytes → Option D) (x : Wire H) (laws : IsWire x) where
  recover_loop_returns :
      (fuel : ℕ) (file rest : Bytes) (last : ℕ) (s : RecoveredState D)
      → length rest < fuel
      → (o : _) × (recover_loop js x fuel file rest last s ≡ some o)
  unfolding recover_loop
  recover_loop_returns zero file rest last s h = absurd (omega arith)
  recover_loop_returns (suc fuel) file rest last s h = elim (Decoded-cases (decode x rest)) [
    | inl stop ↦ rw (stop, recover_loop) (_, refl)
    | inr (inl (e, bad)) ↦ rw (bad, recover_loop) (_, refl)
    | inr (inr (r, rest', d)) ↦ elim (Result-cases (replay_record js r s)) [
      | inl (s', p) ↦
          let (o, q) =
            recover_loop_returns fuel file rest' (length file - length rest') s'
              (omega (arith, length-decode x laws rest d)) in
          rw (d, recover_loop) (rw p (o, q))
      | inr (e, p) ↦ rw (d, recover_loop) (rw p (err e, refl))
    ]
  ]

  recover_segment_returns :
      (file : Bytes) (s : RecoveredState D) → (o : _) × (recover_segment js x file s ≡ some o)
  unfolding recover_segment
  recover_segment_returns file s =
      let (o, p) = recover_loop_returns (suc (length file)) file file 0 s (omega arith) in
      elim (Bool-cases (length file == 0)) [
        | inl empty ↦ rw empty (_, refl)
        | inr full ↦ rw full (
            rw (p, recover_segment)
              (elim (Result-cases o) [
                | inl ((s', cut), q) ↦ rw q (_, refl)
                | inr (e, q) ↦ rw q (_, refl)
              ]))
      ]

  recover_segments_returns :
      (files : List Bytes) (s : RecoveredState D)
      → (o : _) × (recover_segments js x files s ≡ some o)
  unfolding recover_segments
  recover_segments_returns [] s = (_, refl)
  recover_segments_returns (file ∷ files) s =
      let (o, p) = recover_segment_returns file s in
      elim (Result-cases o) [
        | inr (e, q) ↦ rw (p, recover_segments) (rw q (_, refl))
        | inl ((s', file'), q) ↦
            let (o', p') = recover_segments_returns files s' in
            elim (Result-cases o') [
              | inr (e, q') ↦ rw (p, recover_segments) (rw q (rw p' (rw q' (_, refl))))
              | inl ((s₂, files'), q') ↦ rw (p, recover_segments) (rw q (rw p' (rw q' (_, refl))))
            ]
      ]

-- Recovery returns on all files, whatever their bytes: a state or an error, before the fuel runs
-- out.
pub recover_returns :
    {D H : Type 0} (js : Bytes → Option D) (x : Wire H) (files : List Bytes)
    → IsWire x
    → (o : Result (RecoveredState D × List Bytes)) × (recover js x files ≡ some o)
unfolding recover
recover_returns js x files laws = recover_segments_returns js x laws files new
