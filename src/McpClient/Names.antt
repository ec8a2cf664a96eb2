-- ===== src/McpClient/Names.antt =====
-- mcpclient/names.go: the name under which the model sees a tool of an MCP server.
use dire_agent.Prelude.{ℕ, Bool, ◌&&◌, ◌||◌, not, [], ◌∷◌, ◌++◌, ◌==◌, ltb, leb, if◌then◌else◌}
use dire_agent.Prelude.Text.{Text, codes, byte_len, is_empty}
use dire_agent.Prelude.Results.{Result, ok, err, fail_if, ◌>>◌}

pub data NameError : Type 0 where
  empty too_long : NameError
  unsupported : ℕ → NameError

pub data ModelNameError : Type 0 where
  server_name tool_name : NameError → ModelNameError

-- `for _, r := range name`: the first character that is not supported.
unfoldable pub is_supported : ℕ → Bool
is_supported r =
    (leb b'a' r && leb r b'z')
    || (leb b'A' r && leb r b'Z')
    || (leb b'0' r && leb r b'9')
    || (r == b'_')
    || (r == b'-')
    || (r == b'.')

unfoldable pub check_characters : Text → Result NameError (Unit {0})
unfolding is_supported
check_characters [] = ok tt
check_characters (r ∷ name) =
    let rest = check_characters name in if not (is_supported r) then err (unsupported r) else rest

unfoldable pub validate_name : Text → Result NameError (Unit {0})
unfolding byte_len check_characters
validate_name name = do
  fail_if (is_empty name) empty
  fail_if (ltb 128 (byte_len name)) too_long
  check_characters name

-- `fmt.Errorf("…: %w", err)`.
abbrev pub wrap : {E F A : Type 0} → (E → F) → Result E A → Result F A
wrap f (ok a) = ok a
wrap f (err e) = err (f e)

abbrev pub separator : Text
separator = codes "__"

abbrev pub prefixed : Text → Text → Text
prefixed server tool = codes "mcp__" ++ server ++ separator ++ tool

unfoldable pub model_name : Text → Text → Result ModelNameError Text
unfolding validate_name
model_name server tool = do
  wrap server_name (validate_name server)
  wrap tool_name (validate_name tool)
  ok (prefixed server tool)
