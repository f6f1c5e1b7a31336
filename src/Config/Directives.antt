-- ===== src/Config/Directives.antt =====
-- The lines of the bridges in controller/internal/config/torrc.go, and what a good line is.
use torvmremix.Base.{
  ◌≡◌, refl, sym, subst, Bool, true, false, inl, inr, List, [], ◌∷◌, ◌++◌, append-nil, ok, err,
  ◌>>=◌, ◌>>◌, >>-ok, refuse_if-ok, each, all, any, All, All-append, Bytes, bytes, eq_bytes,
  trim_space, join, one_of, OneOf, one_of-OneOf, if◌then◌else◌, arith, &&-true,
}
use torvmremix.Config.Schema.{BridgeConfig}
use torvmremix.Config.Torrc.{
  TorrcError, is_control, sanitize_torrc_line, validate_bridge_line, validate_proxy_address,
  validate_credential, validate_relay_entry, transport_lines, bridge_line, bridge_lines,
  bridge_section, when, Lines, TorrcCheck,
}
use torvmremix.Config.CleanAddress.{is_clean}

-- What a line may begin with.
abbrev pub directives : List Bytes
directives =
    bytes "UseBridges 1"
    ∷ bytes "ClientTransportPlugin obfs4 exec /usr/bin/obfs4proxy"
    ∷ bytes "ClientTransportPlugin meek_lite exec /usr/bin/obfs4proxy"
    ∷ bytes "ClientTransportPlugin snowflake exec /usr/bin/snowflake-client"
    ∷ bytes "Bridge "
    ∷ bytes "HTTPProxy "
    ∷ bytes "HTTPProxyAuthenticator "
    ∷ bytes "HTTPSProxy "
    ∷ bytes "HTTPSProxyAuthenticator "
    ∷ bytes "Socks5Proxy "
    ∷ bytes "Socks5ProxyUsername "
    ∷ bytes "Socks5ProxyPassword "
    ∷ bytes "ExcludeNodes "
    ∷ bytes "ExcludeExitNodes "
    ∷ bytes "StrictNodes 1"
    ∷ bytes "HiddenServiceDir /home/tor/hidden_service/fhe_index"
    ∷ bytes "HiddenServicePort "
    ∷ []

-- A line that is one of the directives, with a value that holds no control character.
abbrev pub IsDirective : Bytes → Type 0
IsDirective l =
    (d : Bytes) × (value : Bytes) × OneOf d directives × (l ≡ d ++ value) × (is_clean value ≡ true)

pub clean-append : (s t : Bytes) → is_clean s ≡ true → is_clean t ≡ true → is_clean (s ++ t) ≡ true
clean-append [] t h k = k
clean-append (c ∷ s) t h k = ground (arith, clean-append s t)

pub directives_clean : all (λ d. is_clean d) directives ≡ true
unfolding bytes
directives_clean = refl

pub all-OneOf :
    (d : Bytes) (ds : List Bytes) → all (λ e. is_clean e) ds ≡ true → OneOf d ds → is_clean d ≡ true
all-OneOf d [] h k = absurd k
all-OneOf d (e ∷ ds) h (inl q) = rw q (&&-true _ _ h).0
all-OneOf d (e ∷ ds) h (inr k) = all-OneOf d ds (&&-true _ _ h).1 k

pub IsDirective-clean : (l : Bytes) → IsDirective l → is_clean l ≡ true
IsDirective-clean l (d, v, o, q, c) =
    rw q (clean-append d v (all-OneOf d directives directives_clean o) c)

-- A line is a directive when its head is found in the table by evaluation.
pub directive :
    (d value : Bytes)
    → one_of d directives ≡ true
    → is_clean value ≡ true
    → IsDirective (d ++ value)
directive d v o c = (d, v, one_of-OneOf d directives o, refl, c)

pub plain : (d : Bytes) → one_of d directives ≡ true → IsDirective d
plain d o = (d, [], one_of-OneOf d directives o, sym (append-nil d), refl)

pub controls : (s : Bytes) → any (λ c. is_control c) s ≡ false → is_clean s ≡ true
controls [] h = refl
controls (c ∷ s) h = ground (arith, controls s)

pub sanitize-clean : (f v : Bytes) → sanitize_torrc_line f v ≡ ok tt → is_clean v ≡ true
unfolding sanitize_torrc_line
sanitize-clean f v h = controls v (refuse_if-ok _ _ (>>-ok _ _ h).1)

pub bridge-clean : (l : Bytes) → validate_bridge_line l ≡ ok tt → is_clean l ≡ true
unfolding validate_bridge_line
bridge-clean l h = sanitize-clean _ l (>>-ok _ _ h).0

pub proxy-clean : (a : Bytes) → validate_proxy_address a ≡ ok tt → is_clean a ≡ true
unfolding validate_proxy_address
proxy-clean a h = sanitize-clean _ a (>>-ok _ _ h).0

pub credential-clean : (f v : Bytes) → validate_credential f v ≡ ok tt → is_clean v ≡ true
unfolding validate_credential
credential-clean f [] h = refl
credential-clean f (c ∷ s) h = sanitize-clean f (c ∷ s) (>>-ok _ _ h).0

pub relay-clean : (e : Bytes) → validate_relay_entry e ≡ ok tt → is_clean e ≡ true
unfolding validate_relay_entry
relay-clean e h = sanitize-clean _ e (>>-ok _ _ h).0

pub relays-clean :
    (sep : Bytes) (es : List Bytes)
    → is_clean sep ≡ true
    → each validate_relay_entry es ≡ ok tt
    → is_clean (join sep es) ≡ true
unfolding join
relays-clean sep [] s h = refl
relays-clean sep (e ∷ []) s h = relay-clean e (>>-ok _ _ h).0
relays-clean sep (e ∷ f ∷ es) s h =
    let (a, b) = >>-ok (validate_relay_entry e) _ h in
    clean-append (e ++ sep) _ (clean-append e sep (relay-clean e a) s)
      (relays-clean sep (f ∷ es) s b)

-- Lines that all are directives, with a rule for each way to put lines together.
pub record Good (ls : List Bytes) : Type 0 where
  pub lines : All IsDirective ls

pub Good-nil : Good []
Good-nil = record { lines = tt }

pub Good-cons : {l : Bytes} {ls : List Bytes} → IsDirective l → Good ls → Good (l ∷ ls)
Good-cons d g = record { lines = (d, g.lines) }

pub Good-append : {ks ls : List Bytes} → Good ks → Good ls → Good (ks ++ ls)
Good-append {ks} {ls} g h = record { lines = All-append IsDirective ks ls g.lines h.lines }

pub Good-if : (b : Bool) {x y : List Bytes} → Good x → Good y → Good (if b then x else y)
Good-if true g h = g
Good-if false g h = h

pub Good-when : (b : Bool) {l : Bytes} → IsDirective l → Good (when b l)
Good-when true d = Good-cons d Good-nil
Good-when false d = Good-nil

-- A result whose lines, if there are any, are good.
pub data Yields : Lines → Type 0 where
  yields : {ls : List Bytes} → Good ls → Yields (ok ls)
  refuses : {e : TorrcError} → Yields (err e)

pub Yields-if : (b : Bool) {x y : Lines} → Yields x → Yields y → Yields (if b then x else y)
Yields-if true g h = g
Yields-if false g h = h

pub Yields-check : (m : TorrcCheck) {k : Lines} → (m ≡ ok tt → Yields k) → Yields (m >> k)
Yields-check (ok tt) f = f refl
Yields-check (err e) f = refuses

pub Yields-bind :
    {m : Lines} {f : List Bytes → Lines}
    → Yields m
    → ((ls : List Bytes) → Good ls → Yields (f ls))
    → Yields (m >>= f)
Yields-bind (yields {ls} g) k = k ls g
Yields-bind refuses k = refuses

pub Yields-Good : {m : Lines} → Yields m → (ls : List Bytes) → m ≡ ok ls → Good ls
Yields-Good (yields g) ls h = subst Good (ground arith) g
Yields-Good refuses ls h = absurd (cc)

transport-Yields : (t : Bytes) → Yields (transport_lines t)
unfolding transport_lines bytes eq_bytes
transport-Yields t =
    Yields-if _
      (yields (
        Good-cons (plain (bytes "ClientTransportPlugin obfs4 exec /usr/bin/obfs4proxy") refl)
          Good-nil))
      (Yields-if _
        (yields (
          Good-cons (plain (bytes "ClientTransportPlugin meek_lite exec /usr/bin/obfs4proxy") refl)
            Good-nil))
        (Yields-if _
          (yields (
            Good-cons
              (plain (bytes "ClientTransportPlugin snowflake exec /usr/bin/snowflake-client") refl)
              Good-nil))
          (Yields-if _ (yields Good-nil) refuses)))

bridge_line-Yields : (b : Bytes) → Yields (bridge_line b)
unfolding bridge_line bytes eq_bytes
bridge_line-Yields b = Yields-if _ (yields Good-nil) (
    Yields-check (validate_bridge_line (trim_space b)) λ c.
      yields
        (Good-cons (directive (bytes "Bridge ") (trim_space b) refl (bridge-clean _ c)) Good-nil))

bridge_lines-Yields : (bs : List Bytes) → Yields (bridge_lines bs)
unfolding bridge_lines
bridge_lines-Yields [] = yields Good-nil
bridge_lines-Yields (b ∷ bs) =
    Yields-bind (bridge_line-Yields b)
      λ l g. Yields-bind (bridge_lines-Yields bs) λ ks h. yields (Good-append g h)

pub bridge_section-Yields : (b : BridgeConfig) → Yields (bridge_section b)
unfolding bridge_section bytes eq_bytes
bridge_section-Yields b = Yields-if _ (yields Good-nil) (
    Yields-bind (transport-Yields b.transport) λ t g.
      Yields-bind (bridge_lines-Yields b.bridges)
        λ ks h. yields (Good-cons (plain (bytes "UseBridges 1") refl) (Good-append g h)))
