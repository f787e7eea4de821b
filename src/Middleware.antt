-- ===== src/Middleware.antt =====
-- repo/backend/internal/middleware/ipfilter.go and csrf.go, checks before the handlers.
-- What a request and its address look like, and how a CIDR block is read, is the business of the echo
-- and net packages.
pub mod Setup
pub mod Opening
pub mod Asking
pub mod Passage
mod Tests
use w1t.Base.{
  ℕ, String, Bool, true, false, not, ◌&&◌, ◌||◌, List, [], ◌∷◌, Option, none, some, str_eq,
  if◌then◌else◌,
}
use w1t.Errors.{Response}

-- `model.IPRule`; the action is `allow` or `deny` by a CHECK of the table.
pub record IpRule : Type 0 where
  pub id : ℕ
  pub cidr : String
  pub action : String
  pub created_by : ℕ
  pub created_at : ℕ

-- `c.next`, or the response with which the request is refused.
pub data Admission : Type 0 where
  next : Admission
  refuse : Response → Admission

abbrev pub blocked : Admission
blocked = refuse (record { status = 403; code = "ERR_FORBIDDEN" })

module _ {Ip : Type 0} (contains : String → Ip → Option Bool) where
  -- `net.ParseCIDR` and `network.Contains`: a block that cannot be read matches nothing.
  abbrev pub matches : IpRule → Ip → Bool
  matches rule ip = elim (contains rule.cidr ip) [ none ↦ false | some b ↦ b ]

  -- The loop over the deny rules.
  unfoldable pub is_denied : List IpRule → Ip → Bool
  is_denied [] ip = false
  is_denied (r ∷ rs) ip =
      let rest = is_denied rs ip in if str_eq r.action "deny" && matches r ip then true else rest

  unfoldable pub has_allow_rules : List IpRule → Bool
  has_allow_rules [] = false
  has_allow_rules (r ∷ rs) =
      let rest = has_allow_rules rs in if str_eq r.action "allow" then true else rest

  -- The loop over the allow rules.
  unfoldable pub is_allowed : List IpRule → Ip → Bool
  is_allowed [] ip = false
  is_allowed (r ∷ rs) ip =
      let rest = is_allowed rs ip in
      if not (str_eq r.action "allow") then rest else if matches r ip then true else rest

  -- The checks of an address against the rules.
  unfoldable pub filter_ip : List IpRule → Ip → Admission
  unfolding is_denied has_allow_rules is_allowed
  filter_ip rules ip =
      if is_denied rules ip
      then blocked
      else if has_allow_rules rules && not (is_allowed rules ip)
      then blocked
      else next

  abbrev pub filter_parsed : List IpRule → Option Ip → Admission
  filter_parsed [] ip = next
  filter_parsed (r ∷ rs) none = next
  filter_parsed (r ∷ rs) (some ip) = filter_ip (r ∷ rs) ip

  -- `IPFilter`, once the rules have been asked for; no address passes where they cannot be loaded.
  unfoldable pub ip_filter : Option (List IpRule) → Option Ip → Admission
  ip_filter none ip = refuse (record { status = 503; code = "ERR_INTERNAL" })
  ip_filter (some rules) ip = filter_parsed rules ip

abbrev pub is_safe : String → Bool
is_safe method = str_eq method "GET" || (str_eq method "HEAD" || str_eq method "OPTIONS")

abbrev pub is_exempt : String → Bool
is_exempt path =
    str_eq path "/api/auth/login"
    || (str_eq path "/api/auth/refresh" || str_eq path "/api/setup/admin")

abbrev pub check_token : Option String → String → Admission
check_token none header = blocked
check_token (some cookie) header =
    if str_eq header "" || not (str_eq header cookie) then blocked else next

-- `CSRF`, for the method, the path, the cookie and the header of a request.
unfoldable pub csrf : String → String → Option String → String → Admission
csrf method path cookie header =
    if is_safe method then next else if is_exempt path then next else check_token cookie header
