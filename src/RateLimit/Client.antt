-- ===== src/RateLimit/Client.antt =====
-- src/ratelimit.rs: the client that a request is throttled as, and what the middleware does with it.
use yanuget.Prelude.{
  true, ◌≡◌, ℕ, ◌/◌, Bool, not, ◌||◌, Option, none, some, List, [], ◌∷◌, ◌++◌, map, reverse,
  if◌then◌else◌, is_empty, retain, ltb,
}
use yanuget.Text.{Text, text, trim, split}
use yanuget.Address.{IpAddr, unmap}
use yanuget.Proxy.{TrustedProxies, trusts}
use yanuget.RateLimit.{RateLimiter}

-- The http crate's `HeaderMap`, and the standard library's parsers of addresses.
pub record Wire : Type 1 where
  pub HeaderMap : Type 0
  pub HeaderValue : Type 0
  pub get_all : HeaderMap → Text → List HeaderValue
  pub get : HeaderMap → Text → Option HeaderValue
  pub contains_key : HeaderMap → Text → Bool
  pub to_str : HeaderValue → Option Text
  pub parse_ip : Text → Option IpAddr
  -- the address of an address with a port
  pub parse_socket : Text → Option IpAddr

abbrev or_second {ℓ} : {A : Type ℓ} → Option A → Option A → Option A
or_second none second = second
or_second (some a) second = some a

abbrev filter_some {ℓ} : {A : Type ℓ} → List (Option A) → List A
filter_some [] = []
filter_some (none ∷ os) = filter_some os
filter_some (some a ∷ os) = a ∷ filter_some os

abbrev flatten {ℓ} : {A : Type ℓ} → List (List A) → List A
flatten [] = []
flatten (xs ∷ xss) = xs ++ flatten xss

abbrev map_some {ℓ κ} : {A : Type ℓ} {B : Type κ} → (A → B) → Option A → Option B
map_some f none = none
map_some f (some a) = some (f a)

abbrev bind_some {ℓ κ} : {A : Type ℓ} {B : Type κ} → Option A → (A → Option B) → Option B
bind_some none f = none
bind_some (some a) f = f a

-- nanoseconds to seconds, at least one
pub window_secs : RateLimiter → ℕ
window_secs limiter = let secs = limiter.window / 1000000000 in if ltb secs 1 then 1 else secs

module _ (wire : Wire) where
  open wire use {HeaderMap, HeaderValue, get_all, get, contains_key, to_str, parse_ip, parse_socket}

  unfoldable pub forwarded_addr : Text → Option IpAddr
  forwarded_addr entry =
      map_some unmap (or_second (parse_ip (trim entry)) (parse_socket (trim entry)))

  -- the entries of all the lines, in order
  unfoldable pub chain : HeaderMap → List Text
  chain headers =
      retain (λ e. not (is_empty (trim e)))
        (flatten
          (map (split b',') (filter_some (map to_str (get_all headers (text "x-forwarded-for"))))))

  -- the loop, over the entries from the right
  unfoldable pub walk : TrustedProxies → IpAddr → List Text → IpAddr
  walk trusted client [] = client
  walk trusted client (entry ∷ rest) = elim (forwarded_addr entry) [
    | none ↦ client
    | some ip ↦ let further = walk trusted ip rest in if trusts trusted ip then further else ip
  ]

  abbrev real_ip : HeaderMap → Option IpAddr
  real_ip headers = bind_some (bind_some (get headers (text "x-real-ip")) to_str) forwarded_addr

  abbrev behind_proxy : TrustedProxies → IpAddr → Option IpAddr → List Text → IpAddr
  behind_proxy trusted peer real [] = elim real [ none ↦ peer | some ip ↦ ip ]
  behind_proxy trusted peer real (e ∷ es) = walk trusted peer (reverse (e ∷ es))

  unfoldable pub client_ip : HeaderMap → Option IpAddr → TrustedProxies → Option IpAddr
  client_ip headers none trusted = none
  client_ip headers (some given) trusted =
      let peer = unmap given in
      if not (trusts trusted peer)
      then some peer
      else some (behind_proxy trusted peer (real_ip headers) (chain headers))

  pub carries_credential : HeaderMap → Bool
  carries_credential headers =
      contains_key headers (text "authorization") || contains_key headers (text "X-NuGet-ApiKey")

  -- An entry that names a trusted proxy.
  abbrev pub Vouched : TrustedProxies → Text → Type 0
  Vouched trusted entry =
      (ip : IpAddr) × (forwarded_addr entry ≡ some ip) × (trusts trusted ip ≡ true)
