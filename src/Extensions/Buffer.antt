-- ===== src/Extensions/Buffer.antt =====
-- extensions/buffer.go: a buffer that keeps the first bytes that are written to it.
use dire_agent.Prelude.{
  ℕ, ◌-◌, ltb, leb, Bool, true, false, List, [], ◌∷◌, ◌++◌, if◌then◌else◌, length, take,
}
use dire_agent.Prelude.Text.{codes}

-- The maximum is positive: a limit that is not is replaced by the default before.
pub record BoundedBuffer : Type 0 where
  pub contents : List ℕ
  pub maximum : ℕ
  pub truncated : Bool

unfoldable pub new_bounded_buffer : ℕ → BoundedBuffer
new_bounded_buffer maximum = record { contents = []; maximum = maximum; truncated = false }

-- `value[:limit]` where the value is longer.
unfoldable pub cut : ℕ → List ℕ → List ℕ
cut limit value = if ltb limit (length value) then take limit value else value

-- The number of bytes that are reported as written comes with the buffer. The contents are never
-- longer than the maximum, so that the difference is that of the source.
unfoldable pub write : List ℕ → BoundedBuffer → ℕ × BoundedBuffer
write value b =
    let written = length value in
    let remaining = b.maximum - length b.contents in
    (
      written,
      record b {
        contents = if ltb 0 remaining then b.contents ++ cut remaining value else b.contents;
        truncated = if ltb remaining written then true else b.truncated;
      },
    )

abbrev pub suffix : List ℕ
suffix = codes "\n[stderr truncated]"

unfoldable pub string : BoundedBuffer → List ℕ
string b =
    if b.truncated
    then if leb b.maximum (length suffix)
      then take b.maximum suffix
      else cut (b.maximum - length suffix) b.contents ++ suffix
    else b.contents

-- The writes of a process, one after the other.
unfoldable pub write_all : List (List ℕ) → BoundedBuffer → BoundedBuffer
write_all [] b = b
write_all (value ∷ values) b = write_all values (write value b).1
