-- ===== src/Tests/Extensions.antt =====
-- extensions/buffer.go: an error output that is longer than its buffer.
use dire_agent.Prelude.{ℕ, ◌≤◌, ◌≡◌, refl, List, [], ◌∷◌, length}
use dire_agent.Prelude.Text.{codes}
use dire_agent.Extensions.Buffer.{new_bounded_buffer, cut, write, string, write_all}
use dire_agent.Extensions.Kept.{concat, shown, string-write_all}

abbrev output : List (List ℕ)
output = codes "a first line of output, " ∷ codes "and more of it" ∷ []

truncated_output :
    string (write_all output (new_bounded_buffer 24)) ≡ codes "a fir\n[stderr truncated]"
unfolding string write_all write cut new_bounded_buffer
truncated_output = refl

string-write_all_example :
    (string (write_all output (new_bounded_buffer 24)) ≡ shown 24 (concat output))
    × (length (string (write_all output (new_bounded_buffer 24))) ≤ 24)
string-write_all_example = string-write_all 24 output
