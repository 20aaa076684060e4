-- ===== src/Services.antt =====
-- internal/servicecheck/servicecheck.go: which services a host runs, and whether they are healthy.
pub mod Custom
pub mod Units
use serverkit_agent.Base.{
  ℕ, zero, suc, ◌+◌, ◌-◌, ◌*◌, ◌^◌, ◌==◌, ltb, leb, if◌then◌else◌, Bool, true, false, ◌&&◌, ◌||◌,
  not, List, [], ◌∷◌, ◌++◌, Option, none, some, Text, codes, text_eq, mem_text, length, drop,
  trim_space, has_prefix, split, fields,
}
use serverkit_agent.Base.Int.{ℤ, pos, negsuc, scale, wrap64}
use serverkit_agent.Base.Matching.{all_chars, letter, digit}

pub data Health : Type 0 where
  up down degraded unknown : Health

-- A check, without its time.
pub record ServiceCheck : Type 0 where
  pub name : Text
  pub kind : Text
  pub status : Health
  pub detail : Text

-- What a custom check asks for.
pub record MonitorCheck : Type 0 where
  pub name : Text
  pub check_type : Text
  pub target : Text
  pub timeout_seconds : ℤ

-- What comes of an HTTP request: no valid http(s) target, an error, with whether the deadline passed, or a status.
pub data Fetched : Type 0 where
  bad_target : Fetched
  no_answer : Bool → Fetched
  answered : ℕ → Fetched

-- What comes of a TCP connect: no valid target, an error, with whether the deadline passed, or a connection.
pub data Dialled : Type 0 where
  bad_address : Dialled
  refused : Bool → Dialled
  connected : Dialled

-- A percentage: the tests on it, and how it is printed.
pub record Usage : Type 0 where
  pub at_least : ℕ → Bool
  pub printed : Text

-- What the checks use of the host: the outputs of systemctl with whether it failed, whether a local port accepts
-- connections, what requests and connects come to within a time, strings.ToLower, and a status in decimal.
pub record Site : Type 0 where
  pub linux : Bool
  pub show : Text → Text × Bool
  pub list_units : Text × Bool
  pub listening : Text → Bool
  pub fetch : ℕ → Text → Fetched
  pub dial : ℕ → Text → Dialled
  pub lowered : Text → Text
  pub decimal_of : ℕ → Text

abbrev pub second : ℕ
second = 10 ^ 9

abbrev pub default_timeout : ℕ
default_timeout = 5 * second

-- clampTimeout, on int64 nanoseconds.
unfoldable pub clamp_timeout : ℤ → ℕ
clamp_timeout (negsuc n) = default_timeout
clamp_timeout (pos zero) = default_timeout
clamp_timeout (pos (suc n)) =
    if ltb (suc n) second then second else if ltb (30 * second) (suc n) then 30 * second else suc n

abbrev pub web_units : List Text
web_units = codes "nginx" ∷ codes "apache2" ∷ codes "httpd" ∷ codes "caddy" ∷ []

abbrev pub db_units : List (Text × Text)
db_units =
    (codes "mysql", codes "3306")
    ∷ (codes "mysqld", codes "3306")
    ∷ (codes "mariadb", codes "3306")
    ∷ (codes "postgresql", codes "5432")
    ∷ []

abbrev pub check_of : Text → Text → Health → Text → ServiceCheck
check_of n k s d = record { name = n; kind = k; status = s; detail = d }

unfoldable pub threshold : Text → Usage → ServiceCheck
threshold name u =
    if u.at_least 98
    then check_of name name down (u.printed ++ codes "% used")
    else if u.at_least 90
    then check_of name name degraded (u.printed ++ codes "% used")
    else check_of name name up (u.printed ++ codes "% used")

pub record UnitInfo : Type 0 where
  pub id : Text
  pub load : Text
  pub active : Text

abbrev no_unit : UnitInfo
no_unit = record { id = []; load = []; active = [] }

abbrev push_key : ℕ → Option (Text × Text) → Option (Text × Text)
push_key c none = none
push_key c (some (k, v)) = some (c ∷ k, v)

-- strings.Cut at the first `=`.
unfoldable pub cut_at : Text → Option (Text × Text)
cut_at [] = none
cut_at (c ∷ s) = let rest = cut_at s in if c == b'=' then some ([], s) else push_key c rest

abbrev with_value : Option (Text × Text) → UnitInfo → UnitInfo
with_value none u = u
with_value (some (k, v)) u =
    if text_eq k (codes "Id")
    then record u { id = v }
    else if text_eq k (codes "LoadState")
    then record u { load = v }
    else if text_eq k (codes "ActiveState")
    then record u { active = v }
    else u

unfoldable pub read_unit : List Text → UnitInfo → UnitInfo
unfolding cut_at
read_unit [] u = u
read_unit (l ∷ ls) u = read_unit ls (with_value (cut_at (trim_space l)) u)

abbrev loaded_unit : UnitInfo → Option UnitInfo
loaded_unit u = if text_eq u.load (codes "loaded") then some u else none

abbrev from_show : Text × Bool → Option UnitInfo
unfolding read_unit
from_show (out, err) =
    if err && text_eq out [] then none else loaded_unit (read_unit (split 10 out) no_unit)

-- unitState; `none` is a unit that was not found.
unfoldable pub unit_state : Site → Text → Option UnitInfo
unfolding from_show
unit_state site unit = from_show (site.show unit)

unfoldable pub web_check : Text → UnitInfo → Bool → ServiceCheck
web_check unit u listening =
    if text_eq u.active (codes "active")
    then check_of unit (codes "web") up (codes "systemd unit active")
    else if listening
    then check_of unit (codes "web") up
        (codes "unit " ++ u.active ++ codes " but listening on 80/443")
    else check_of unit (codes "web") down (codes "systemd unit " ++ u.active)

unfoldable pub db_check : Text → Text → UnitInfo → Bool → ServiceCheck
db_check unit port u listening =
    if not (text_eq u.active (codes "active"))
    then check_of unit (codes "database") down (codes "systemd unit " ++ u.active)
    else if listening
    then check_of unit (codes "database") up
        (codes "unit active, accepting connections on " ++ port)
    else check_of unit (codes "database") degraded
        (codes "unit active but port " ++ port ++ codes " refused connections")

-- A unit that is found is reported if its id was not seen; the rest depends on that.
abbrev pub report :
    Option UnitInfo
    → List Text
    → (UnitInfo → ServiceCheck)
    → List (Text × ServiceCheck)
    → (UnitInfo → List (Text × ServiceCheck))
    → List (Text × ServiceCheck)
report none seen check skipped reported = skipped
report (some u) seen check skipped reported =
    if mem_text u.id seen then skipped else (u.id, check u) ∷ reported u

-- The loop over units, with the ids that were seen.
unfoldable pub scan_units :
    {A : Type 0}
    → (A → Option UnitInfo)
    → (A → UnitInfo → ServiceCheck)
    → List Text
    → List A
    → List (Text × ServiceCheck)
scan_units state check seen [] = []
scan_units state check seen (a ∷ rest) =
    report (state a) seen (check a) (scan_units state check seen rest)
      (λ u. scan_units state check (u.id ∷ seen) rest)

unfoldable pub checks_of : List (Text × ServiceCheck) → List ServiceCheck
checks_of [] = []
checks_of ((id, c) ∷ cs) = c ∷ checks_of cs

abbrev or_port : Bool → List ServiceCheck → List ServiceCheck
or_port true [] = check_of (codes "web") (codes "web") up (codes "listening on 80/443") ∷ []
or_port listening cs = cs

module _ (site : Site) where
  abbrev pub web_listening : Bool
  web_listening = site.listening (codes "80") || site.listening (codes "443")

  unfoldable pub web : List ServiceCheck
  unfolding scan_units checks_of unit_state web_check
  web = or_port web_listening (
      checks_of
        (scan_units (unit_state site) (λ unit u. web_check unit u web_listening) [] web_units))

  unfoldable pub databases : List ServiceCheck
  unfolding scan_units checks_of unit_state db_check
  databases = checks_of (
      scan_units (λ db. unit_state site db.0) (λ db u. db_check db.0 db.1 u (site.listening db.1))
        [] db_units)
