-- ===== src/Samples.antt =====
-- A configuration and empty tables, for the tests.
use Prim.Native.String
use w1t.Base.{
  ℕ, zero, suc, String, true, false, ◌≡◌, ◌≢◌, refl, sym, ap, ◌∙◌, [], some, str_eq, append_cancel,
  starts_with, starts_with-append, arith,
}
use w1t.Crypto.{Aead}
use w1t.World.{World, Env, Database}

-- Different numbers have different texts.
abbrev pub unary : ℕ → String
unary zero = ""
unary (suc n) = String.◌++◌ "1" (unary n)

-- A cipher that hides nothing, with nonces of two bytes.
abbrev pub plain_aead : Aead
plain_aead = record {
  nonce_size = 2;
  seal = λ nonce plaintext. plaintext;
  open_sealed = λ nonce sealed. some sealed;
  hmac = λ text. text;
}

-- Passwords and tokens are their own hashes.
abbrev pub test_env : Env
test_env = record {
  uuid_string = unary;
  check_password = λ hash password. str_eq hash password;
  hash_password = λ s. some s;
  aead = plain_aead;
  sql_like = λ text pattern. str_eq text pattern;
  sha256 = λ s. s;
  sign_token = λ user roles until. user;
  csrf_token = unary;
  has_analytics = true;
  has_notifications = true;
}

abbrev pub empty_tables : Database
empty_tables = record {
  next_id = 100;
  orders = [];
  transitions = [];
  collectibles = [];
  tx_history = [];
  ab_tests = [];
  events = [];
  ab_test_results = [];
  anomalies = [];
  messages = [];
  attachments = [];
  templates = [];
  notifications = [];
  preferences = [];
  users = [];
  roles = [];
  user_roles = [];
  refresh_tokens = [];
  login_attempts = [];
}

-- A world at time 5000 in which no call fails.
abbrev pub at_rest : Database → World
at_rest d = record { env = test_env; now = 5000; faults = []; db = d; cache = []; tasks = [] }

ones_differ : (n : ℕ) → String.◌++◌ "1" (unary n) ≢ ""
unfolding starts_with str_eq
ones_differ n h = absurd (ground (arith, wrong))
  where
    wrong : false ≡ true
    wrong = sym (ap (starts_with "1") h) ∙ starts_with-append "1" "1" (unary n) refl

pub unary_injective : (m n : ℕ) → unary m ≡ unary n → m ≡ n
unary_injective zero zero h = refl
unary_injective zero (suc n) h = absurd (ones_differ n (sym h))
unary_injective (suc m) zero h = absurd (ones_differ m h)
unary_injective (suc m) (suc n) h = ap suc (unary_injective m n (append_cancel "1" _ _ h))
