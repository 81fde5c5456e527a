-- ===== src/Storage/Format/Torn.antt =====
-- Decoding the front of an encoded record: what a crash in the middle of a write leaves.
use nova_db.Base.{ℕ, ◌+◌, ◌^◌, ◌≤◌, ◌<◌, ◌≡◌, sym, ap, ◌∙◌, ◌++◌, ◌⊎◌, inl, inr}
use nova_db.Base.{if◌then◌else◌, Bool-cases, ltb→lt, ltb→le}
use nova_db.Base.{
  none, some, arith, ltb, le→ltb, length, length-append, append_assoc, append_cases, All,
}
use nova_db.Base.Bytes.{Bytes, bytes_eq_refl, read_exact, read_exact-short}
use nova_db.Base.Text.{Text, IsScalar, as_bytes}
use nova_db.Core.Error.{Result, ok, err, ◌>>=◌}
use nova_db.Wire.{Wire, IsWire, checksum}
use nova_db.Wire.Laws.{read-write, length-write, checksum_lt, read_short}
use nova_db.Storage.Format.{NbfRecord, IsRecord, max_u16, max_payload, nbf_magic, torn}
use nova_db.Storage.Format.{
  header_fields, text_field, record_tail, record_body, encode, read_text, read_payload,
}
use nova_db.Storage.Format.{read_record, decode}
use nova_db.Storage.Format.RoundTrip.{
  header_of, read_text-text_field, read_payload-payload, length-header_fields, decode-header,
  encode-IsRecord,
}

module _ {H : Type 0} {x : Wire H} (laws : IsWire x) where
  -- A number and as many bytes, cut off before the last byte.
  short_cases :
      (w n : ℕ) (body rest s back : Bytes)
      → n < 256 ^ w
      → (x.write w n ++ body) ++ rest ≡ s ++ back
      → length s < length (x.write w n ++ body)
      → (x.read w s ≡ none) ⊎ ((m : Bytes) × (x.read w s ≡ some (n, m)) × (length m < length body))
  short_cases w n body rest s back lt e short =
      elim (append_cases (x.write w n) (body ++ rest) s back
        (sym (append_assoc (x.write w n) body rest) ∙ e)) [
          | inl h ↦ inl (read_short laws w s (omega (arith, length-write laws w n lt)))
          | inr (m, p, q) ↦ inr (
            m,
            rw p (read-write laws w n m lt),
            omega (
              arith,
              short,
              ap (λ (l : Bytes). length l) p,
              length-append (x.write w n) m,
              length-append (x.write w n) body,
            ),
          )
        ]

  read_text-short :
      (t : Text) (rest s back : Bytes)
      → length (as_bytes t) ≤ max_u16
      → text_field x t ++ rest ≡ s ++ back
      → length s < length (text_field x t)
      → read_text x s ≡ err torn
  unfolding read_text text_field
  read_text-short t rest s back h e short =
      elim (short_cases 2 (length (as_bytes t)) (as_bytes t) rest s back (omega arith) e short) [
        | inl none_left ↦ rw none_left
        | inr (m, got, lt) ↦ rw got (rw (read_exact-short (length (as_bytes t)) m lt))
      ]

  read_payload-short :
      (p rest s back : Bytes)
      → length p ≤ max_payload
      → (x.write 4 (length p) ++ p) ++ rest ≡ s ++ back
      → length s < length (x.write 4 (length p) ++ p)
      → read_payload x s ≡ err torn
  unfolding read_payload
  read_payload-short p rest s back h e short =
      elim (short_cases 4 (length p) p rest s back (omega arith) e short) [
        | inl none_left ↦ rw none_left
        | inr (m, got, lt) ↦
            rw got (rw (le→ltb max_payload (length p) h) (rw (read_exact-short (length p) m lt)))
      ]

  -- A text field that is cut off stops the reading; one that is whole is read, and the cut lies behind.
  read_text-torn :
      {A : Type 0} (t : Text) (rest s back : Bytes) (k : ℕ × Text × Bytes → Result A)
      → All IsScalar t
      → length (as_bytes t) ≤ max_u16
      → text_field x t ++ rest ≡ s ++ back
      → ((m : Bytes) → rest ≡ m ++ back → k (length (as_bytes t), t, m) ≡ err torn)
      → (read_text x s >>= k) ≡ err torn
  read_text-torn t rest s back k chars h e next =
      elim (append_cases (text_field x t) rest s back e) [
        | inl short ↦ rw (read_text-short t rest s back h e short)
        | inr (m, p, q) ↦ rw p (rw (read_text-text_field laws t m chars h) (next m q))
      ]

  module _ {r : NbfRecord} (v : IsRecord r) where
    read_payload-torn :
        {A : Type 0} (rest s back : Bytes) (k : Bytes × Bytes → Result A)
        → (x.write 4 (length r.payload) ++ r.payload) ++ rest ≡ s ++ back
        → ((m : Bytes) → rest ≡ m ++ back → k (r.payload, m) ≡ err torn)
        → (read_payload x s >>= k) ≡ err torn
    read_payload-torn rest s back k e next =
        elim (append_cases (x.write 4 (length r.payload) ++ r.payload) rest s back e) [
          | inl short ↦ rw (read_payload-short r.payload rest s back v.payload_le e short)
          | inr (m, p, q) ↦ rw p (rw (read_payload-payload laws v m) (next m q))
        ]

    read_record-torn :
        (s back c : Bytes)
        → length c ≡ 4
        → 0 < length back
        → record_tail x r ++ c ≡ s ++ back
        → read_record x (header_fields x r) (header_of r) s ≡ err torn
    unfolding read_record record_tail
    read_record-torn s back c four more e =
        let p : Bytes = x.write 4 (length r.payload) ++ r.payload in
        let id : Bytes = text_field x r.document_id in
        let coll : Bytes = text_field x r.collection in
        read_text-torn r.namespace ((coll ++ (id ++ p)) ++ c) s back _ v.namespace_chars
          v.namespace_le (sym (append_assoc (text_field x r.namespace) (coll ++ (id ++ p)) c) ∙ e)
          λ s₁ e₁.
            read_text-torn r.collection ((id ++ p) ++ c) s₁ back _ v.collection_chars
              v.collection_le (sym (append_assoc coll (id ++ p) c) ∙ e₁)
              λ s₂ e₂.
                read_text-torn r.document_id (p ++ c) s₂ back _ v.id_chars v.id_le
                  (sym (append_assoc id p c) ∙ e₂)
                  λ s₃ e₃. rw v.id_new (
                    read_payload-torn c s₃ back _ e₃ λ s₄ e₄.
                      let size : length c ≡ length s₄ + length back =
                        ap (λ (l : Bytes). length l) e₄ ∙ length-append s₄ back in
                      rw (read_short laws 4 s₄ (omega arith)))

    -- The header of a record that is cut off.
    decode-front :
        (front back c : Bytes)
        → length c ≡ 4
        → 0 < length back
        → 4 ≤ length front
        → record_body x r ++ c ≡ front ++ back
        → decode x front ≡ err torn
    unfolding record_body
    decode-front front back c four more le e =
        let hf : Bytes = header_fields x r in
        let rest : Bytes = (hf ++ record_tail x r) ++ c in
        elim (append_cases nbf_magic rest front back e) [
          | inl short ↦ absurd (omega arith)
          | inr (m, p, q) ↦
              elim (append_cases hf (record_tail x r ++ c) m back
                (sym (append_assoc hf (record_tail x r) c) ∙ q)) [
                  | inl short ↦ rw p (
                      unfold decode read_exact in
                      rw (bytes_eq_refl nbf_magic)
                        (rw (read_exact-short 28 m (omega (arith, length-header_fields laws v)))))
                  | inr (m', p', q') ↦
                      rw p
                        (rw p' (decode-header laws v m' ∙ read_record-torn m' back c four more q'))
                ]
        ]

-- Of an encoded record in range from which at least the last byte is missing, decoding reports a
-- torn write, or a clean end of the log if fewer than four bytes are left.
pub decode-torn :
    {H : Type 0} {x : Wire H} {r : NbfRecord} (front back : Bytes)
    → IsWire x
    → IsRecord r
    → encode x r ≡ ok (front ++ back)
    → 0 < length back
    → decode x front ≡ (if ltb (length front) 4 then ok none else err torn)
decode-torn {H} {x} {r} front back laws v e more =
    let crc : Bytes = x.write 4 (checksum x (record_body x r)) in
    let whole : record_body x r ++ crc ≡ front ++ back = cc (encode-IsRecord x v) in
    let four : length crc ≡ 4 = length-write laws 4 _ (checksum_lt laws (record_body x r)) in
    elim (Bool-cases (ltb (length front) 4)) [
      | inl short ↦
          rw short
            (unfold decode in rw (read_exact-short 4 front (ltb→lt (length front) 4 short), decode))
      | inr long ↦
          rw long
            (decode-front laws v front back crc four more (ltb→le (length front) 4 long) whole)
    ]
