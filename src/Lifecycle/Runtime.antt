-- ===== src/Lifecycle/Runtime.antt =====
-- internal/lifecycle/runtime.go and internal/lifecycle/supervisor.go: the state that a daemon leaves in
-- its runtime file, its answer to a health request, and the tests on both.
use dire_agent.Prelude.{
  ◌≡◌, ap, ==_iff, ℕ, Bool, true, false, ◌&&◌, ◌||◌, not, Option, none, some, ◌==◌, ltb,
}
use dire_agent.Prelude.Text.{Text, codes, text_eq, is_empty, is_blank, byte_len}
use dire_agent.Prelude.Int.{ℤ, pos, negsuc, at_most}
use dire_agent.Prelude.Results.{Result, ok, err, fail_if, ◌>>=◌, ◌>>◌}

-- A *url.URL, with its host name.
pub record Url : Type 0 where
  pub scheme : Text
  pub has_user : Bool
  pub host : Text
  pub hostname : Text
  pub raw_query : Text
  pub fragment : Text
  pub path : Text

-- What is called of packages net/url, net and path/filepath: `Parse`, `String`, whether `ParseIP` finds a
-- loopback address, and `IsAbs`.
pub record Net : Type 0 where
  pub parse_url : Text → Result Text Url
  pub print_url : Url → Text
  pub is_loopback_ip : Text → Bool
  pub is_abs : Text → Bool

pub record RuntimeState : Type 0 where
  pub schema : ℤ
  pub pid : ℤ
  pub instance_id : Text
  pub control_token : Text
  pub version : Text
  pub executable : Text
  pub http_url : Text
  -- Whether the time is the zero time.
  pub never_started : Bool

pub record Health : Type 0 where
  pub service : Text
  pub status : Text
  pub version : Text
  pub pid : ℤ
  pub instance_id : Text

pub data LifecycleError : Type 0 where
  not_exist : LifecycleError
  external : Text → LifecycleError
  invalid_url : Text → LifecycleError
  invalid_runtime : Text → LifecycleError
  invalid_health : Text → LifecycleError
  identity_mismatch : Text → LifecycleError
  not_private : LifecycleError
  undecodable : LifecycleError
  trailing_content : LifecycleError
  empty_instance : LifecycleError
  invalid_supervisor : Text → LifecycleError
  identity_unverified : ℤ → LifecycleError → LifecycleError
  refused : ℤ → LifecycleError → LifecycleError
  unsupervised : ℤ → LifecycleError
  rejected : ℕ → LifecycleError
  bad_status : ℕ → LifecycleError
  replaced_during_startup : LifecycleError
  exited_during_startup : LifecycleError
  deadline : Text → LifecycleError

abbrev pub Check : Type 0
Check = Result LifecycleError (Unit {0})

-- `==` on int.
unfoldable pub int_eq : ℤ → ℤ → Bool
int_eq (pos a) (pos b) = a == b
int_eq (negsuc a) (negsuc b) = a == b
int_eq (pos a) (negsuc b) = false
int_eq (negsuc a) (pos b) = false

pub int_eq→eq : (a b : ℤ) → int_eq a b ≡ true → a ≡ b
unfolding int_eq
int_eq→eq (pos a) (pos b) h = ap pos ((==_iff a b).0 h)
int_eq→eq (negsuc a) (negsuc b) h = ap negsuc ((==_iff a b).0 h)
int_eq→eq (pos a) (negsuc b) h = cc
int_eq→eq (negsuc a) (pos b) h = cc

abbrev external_result {ℓ} : {A : Type ℓ} → Result Text A → Result LifecycleError A
external_result (err e) = err (external e)
external_result (ok a) = ok a

module _ (net : Net) where
  -- The tests on a URL that can be parsed.
  unfoldable pub check_loopback : Url → Check
  unfolding text_eq
  check_loopback u = do
    fail_if (not (text_eq u.scheme (codes "http"))) (invalid_url u.scheme)
    fail_if
        (u.has_user || is_empty u.host || not (is_empty u.raw_query) || not (is_empty u.fragment))
        (invalid_url u.host)
    fail_if (not (is_empty u.path) && not (text_eq u.path (codes "/"))) (invalid_url u.path)
    fail_if (not (text_eq u.hostname (codes "localhost")) && not (net.is_loopback_ip u.hostname))
        (invalid_url u.hostname)

  unfoldable pub validate_loopback_url : Text → Check
  unfolding check_loopback
  validate_loopback_url raw = do u ← external_result (net.parse_url raw); check_loopback u

  unfoldable pub endpoint_url : Text → Text → Result LifecycleError Text
  unfolding validate_loopback_url
  endpoint_url base endpoint = do
    validate_loopback_url base
    u ← external_result (net.parse_url base)
    ok (net.print_url (record u { path = endpoint }))

  unfoldable pub validate_runtime : RuntimeState → Check
  unfolding int_eq byte_len is_blank validate_loopback_url
  validate_runtime state = do
    fail_if (not (int_eq state.schema (pos 1))) (invalid_runtime (codes "schema"))
    fail_if (at_most state.pid 1) (invalid_runtime (codes "pid"))
    fail_if (ltb (byte_len state.instance_id) 16) (invalid_runtime (codes "instance id"))
    fail_if (ltb (byte_len state.control_token) 32) (invalid_runtime (codes "control token"))
    fail_if (is_blank state.version) (invalid_runtime (codes "version"))
    fail_if (not (net.is_abs state.executable)) (invalid_runtime (codes "executable"))
    fail_if state.never_started (invalid_runtime (codes "start time"))
    validate_loopback_url state.http_url

unfoldable pub valid_health : Health → Check
unfolding text_eq byte_len is_blank
valid_health health = do
  fail_if (not (text_eq health.service (codes "dire-agent"))) (invalid_health (codes "service"))
  fail_if (not (text_eq health.status (codes "ok"))) (invalid_health (codes "status"))
  fail_if (at_most health.pid 1) (invalid_health (codes "pid"))
  fail_if (ltb (byte_len health.instance_id) 16) (invalid_health (codes "instance id"))
  fail_if (is_blank health.version) (invalid_health (codes "version"))

unfoldable pub match_identity : RuntimeState → Health → Check
unfolding valid_health int_eq text_eq
match_identity state health = do
  valid_health health
  fail_if (not (int_eq health.pid state.pid)) (identity_mismatch (codes "pid"))
  fail_if (not (text_eq health.instance_id state.instance_id))
      (identity_mismatch (codes "instance id"))
  fail_if (not (text_eq health.version state.version)) (identity_mismatch (codes "version"))

-- A file, as far as `ReadRuntime` looks at it: the errors of looking at it and of opening it, its mode, the
-- first JSON value where it can be decoded, and whether nothing follows that.
pub record Stored : Type 0 where
  pub stat_error : Option Text
  pub open_error : Option Text
  pub regular : Bool
  pub owner_only : Bool
  pub decoded : Option RuntimeState
  pub at_end : Bool

-- The error of a call on the file, if it has one.
abbrev readable : Option Text → Result LifecycleError (Unit {0})
readable none = ok tt
readable (some e) = err (external e)

module _ (net : Net) where
  decode_state : Bool → Option RuntimeState → Result LifecycleError RuntimeState
  unfolding validate_runtime
  decode_state at_end none = err undecodable
  decode_state at_end (some state) = do
    fail_if (not at_end) trailing_content
    validate_runtime net state
    ok state

  unfoldable pub read_runtime : Option Stored → Result LifecycleError RuntimeState
  unfolding decode_state
  read_runtime none = err not_exist
  read_runtime (some file) = do
    readable file.stat_error
    fail_if (not file.regular) not_private
    fail_if (not file.owner_only) not_private
    readable file.open_error
    decode_state file.at_end file.decoded
