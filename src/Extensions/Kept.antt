-- ===== src/Extensions/Kept.antt =====
-- extensions/buffer.go: what a buffer shows after any writes.
use dire_agent.Prelude.{
  ℕ, ◌+◌, ◌-◌, ◌≤◌, ◌<◌, suc, zero, ◌⊎◌, inl, inr, ltb, leb, ◌≡◌, refl, sym, ap, ◌∙◌, true,
  Bool-cases, List, [], ◌∷◌, ◌++◌, if◌then◌else◌, arith, length, length-append, take, take-nil,
  take-all, take-take, take-append, length-take, length-take_full,
}
use mathlib.Core.Path.{ap₂}
use mathlib.Core.List.{append_assoc, append-nil}
use dire_agent.Extensions.Buffer.{
  BoundedBuffer, new_bounded_buffer, cut, write, suffix, string, write_all,
}

unfoldable pub concat : List (List ℕ) → List ℕ
concat [] = []
concat (value ∷ values) = value ++ concat values

-- The buffer that was given these bytes.
abbrev after_bytes : ℕ → List ℕ → BoundedBuffer
after_bytes maximum bytes = record {
  contents = take maximum bytes;
  maximum = maximum;
  truncated = ltb maximum (length bytes);
}

cut-take : (limit : ℕ) (value : List ℕ) → cut limit value ≡ take limit value
unfolding cut
cut-take limit value = elim (Bool-cases (ltb limit (length value))) [
  | inl longer ↦ rw longer refl
  | inr fits ↦ rw fits (sym (take-all limit value (ground arith)))
]

written_contents :
    (remaining : ℕ) (contents value : List ℕ)
    → (if ltb 0 remaining then contents ++ cut remaining value else contents)
      ≡ contents ++ take remaining value
written_contents zero contents value = sym (append-nil contents)
written_contents (suc n) contents value =
    let room : ltb 0 (suc n) ≡ true = ground arith in
    rw room (ap (λ t. contents ++ t) (cut-take (suc n) value))

-- Something is lost now, or was lost before.
flag :
    (maximum kept before written : ℕ)
    → (before ≤ maximum × (kept ≡ before)) ⊎ ((maximum < before) × (kept ≡ maximum))
    → (if ltb (maximum - kept) written then true else ltb maximum before)
      ≡ ltb maximum (before + written)
flag maximum kept before written (inl (fits, e)) = ground arith
flag maximum kept before written (inr (more, e)) = ground arith

kept_length :
    (maximum : ℕ) (bytes : List ℕ)
    → (length bytes ≤ maximum × (length (take maximum bytes) ≡ length bytes))
      ⊎ ((maximum < length bytes) × (length (take maximum bytes) ≡ maximum))
kept_length maximum bytes = elim (Bool-cases (leb (length bytes) maximum)) [
  | inl fits ↦ inl (ground arith, ap length (take-all maximum bytes (ground arith)))
  | inr more ↦ inr (ground arith, length-take_full maximum bytes (ground arith))
]

write_after :
    (maximum : ℕ) (bytes value : List ℕ)
    → (write value (after_bytes maximum bytes)).1 ≡ after_bytes maximum (bytes ++ value)
unfolding write
write_after maximum bytes value =
    let left = maximum - length (take maximum bytes) in
    let same_contents =
      written_contents left (take maximum bytes) value ∙ sym (take-append maximum bytes value) in
    let same_flag =
      flag maximum _ _ (length value) (kept_length maximum bytes)
      ∙ ap (ltb maximum) (sym (length-append bytes value)) in
    ap₂ (λ contents lost. record { contents = contents; maximum = maximum; truncated = lost })
      same_contents same_flag

write_all_after :
    (maximum : ℕ) (bytes : List ℕ) (values : List (List ℕ))
    → write_all values (after_bytes maximum bytes) ≡ after_bytes maximum (bytes ++ concat values)
unfolding write_all concat
write_all_after maximum bytes [] = ap (after_bytes maximum) (sym (append-nil bytes))
write_all_after maximum bytes (value ∷ values) =
    ap (write_all values) (write_after maximum bytes value)
    ∙ (write_all_after maximum (bytes ++ value) values
        ∙ ap (after_bytes maximum) (append_assoc bytes value (concat values)))

new_after : (maximum : ℕ) → new_bounded_buffer maximum ≡ after_bytes maximum []
unfolding new_bounded_buffer
new_after maximum =
    ap₂ (λ contents lost. record { contents = contents; maximum = maximum; truncated = lost })
      (sym (take-nil maximum)) (ground arith)

-- All bytes where they fit, and otherwise the first of them with the suffix, or the start of the suffix
-- where there is no room for more.
unfoldable pub shown : ℕ → List ℕ → List ℕ
shown maximum bytes =
    if ltb maximum (length bytes)
    then if leb maximum (length suffix)
      then take maximum suffix
      else take (maximum - length suffix) bytes ++ suffix
    else bytes

string-after :
    (maximum : ℕ) (bytes : List ℕ) → string (after_bytes maximum bytes) ≡ shown maximum bytes
unfolding string shown
string-after maximum bytes = elim (Bool-cases (ltb maximum (length bytes))) [
  | inr fits ↦ rw fits (take-all maximum bytes (ground arith))
  | inl more ↦ elim (Bool-cases (leb maximum (length suffix))) [
    | inl short ↦ rw (more, short) refl
    | inr room ↦
        rw (more, room)
          (ap (λ t. t ++ suffix)
            (cut-take _ (take maximum bytes) ∙ take-take _ maximum bytes (omega arith)))
  ]
]

length-shown : (maximum : ℕ) (bytes : List ℕ) → length (shown maximum bytes) ≤ maximum
unfolding shown
length-shown maximum bytes = elim (Bool-cases (ltb maximum (length bytes))) [
  | inr fits ↦ rw fits (ground arith)
  | inl more ↦ elim (Bool-cases (leb maximum (length suffix))) [
    | inl short ↦ rw (more, short) (length-take maximum suffix)
    | inr room ↦
        let kept = take (maximum - length suffix) bytes in
        let above : length suffix < maximum = ground arith in
        rw (more, room)
          (omega
            (arith, above, length-append kept suffix, length-take (maximum - length suffix) bytes))
  ]
]

-- After any writes the buffer shows all bytes that were written, one after the other, where they are at
-- most the maximum; otherwise the first bytes and the suffix, or the start of the suffix where the
-- maximum is no longer than the suffix. It never shows more bytes than the maximum.
pub string-write_all :
    (maximum : ℕ) (values : List (List ℕ))
    → (string (write_all values (new_bounded_buffer maximum)) ≡ shown maximum (concat values))
      × (length (string (write_all values (new_bounded_buffer maximum))) ≤ maximum)
string-write_all maximum values =
    let same : string (write_all values (new_bounded_buffer maximum))
        ≡ shown maximum (concat values) =
      ap (λ b. string (write_all values b)) (new_after maximum)
      ∙ (ap string (write_all_after maximum [] values) ∙ string-after maximum (concat values)) in
    (same, rw same (length-shown maximum (concat values)))
