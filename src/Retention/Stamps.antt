-- ===== src/Retention/Stamps.antt =====
-- The names of the daily partitions: `events_partition_name` of server/app/db.py, and the patterns that
-- server/app/jobs/retention.py and server/alembic/versions/0001_v1_schema.py read a day back with.
use Prim.Native.String.{[], ◌∷◌}
use Prim.Native.String
use Prim.Native.Char.{Char, code}
use crashlens.Base.{
  ℕ, ◌<◌, ◌≡◌, refl, String, Bool, true, ◌&&◌, ◌||◌, Option, none, some, count, take_text,
  take_text-all, leb, ◌==◌, nat_eq, string_eq, eq_iff, arith, if◌then◌else◌, ◌>>=◌,
}
use text.Mathlib.TextLemmas.{nil-append, cons-append}

-- What the code takes from Python's `datetime` and `re` and from PostgreSQL's `to_char` and `to_date`,
-- for the format YYYYMMDD; none where a text is no day.
pub record Calendar : Type 0 where
  -- How many days there are: `date.max` is the last.
  pub days : ℕ
  pub strftime : ℕ → String
  pub to_char : ℕ → String
  pub strptime : String → Option ℕ
  pub to_date : String → Option ℕ
  -- Python's `\d`.
  pub is_decimal : Char → Bool

unfoldable pub events_partition_name : Calendar → ℕ → String
events_partition_name c day = String.◌++◌ "events_" (c.strftime day)

abbrev pub sql_name : Calendar → ℕ → String
sql_name c day = String.◌++◌ "events_" (c.to_char day)

unfoldable pub strip_prefix : String → String → Option String
strip_prefix [] s = some s
strip_prefix (c ∷ p) [] = none
strip_prefix (c ∷ p) (d ∷ s) =
    let rest = strip_prefix p s in if (c ∷ "") == (d ∷ "") then rest else none

unfoldable pub every : (Char → Bool) → String → Bool
every p [] = true
every p (c ∷ s) = p c && every p s

-- Eight digits from the start of a text.
unfoldable pub eight_digits : (Char → Bool) → String → Option String
unfolding every
eight_digits digit s =
    let d = take_text 8 s in if count d == 8 && every digit d then some d else none

-- The match of `^events_(\d{8})$` at a name: its group. Python's `$` lets one newline follow.
unfoldable pub python_stamp : Calendar → String → Option String
unfolding strip_prefix eight_digits
python_stamp c name = do
  rest ← strip_prefix "events_" name
  d ← eight_digits c.is_decimal rest
  if rest == d || rest == String.◌++◌ d "\n" then some d else none

abbrev pub is_ascii_digit : Char → Bool
is_ascii_digit c = leb 48 (code c) && leb (code c) 57

-- The match of `^events_[0-9]{8}$`.
unfoldable pub sql_stamp : String → Option String
unfolding strip_prefix eight_digits
sql_stamp name = do
  rest ← strip_prefix "events_" name
  d ← eight_digits is_ascii_digit rest
  if rest == d then some d else none

-- The digits of a day are read back, by Python and by PostgreSQL.
pub record IsDay (c : Calendar) (day : ℕ) : Type 0 where
  pub same : c.to_char day ≡ c.strftime day
  pub long : count (c.strftime day) ≡ 8
  pub decimal : every c.is_decimal (c.strftime day) ≡ true
  pub ascii : every is_ascii_digit (c.strftime day) ≡ true
  pub python_back : c.strptime (c.strftime day) ≡ some day
  pub sql_back : c.to_date (c.to_char day) ≡ some day

abbrev pub IsCalendar : Calendar → Type 0
IsCalendar c = (day : ℕ) → day < c.days → IsDay c day

stripped : (p s : String) → strip_prefix p (String.◌++◌ p s) ≡ some s
unfolding strip_prefix
stripped [] s = rw (nil-append s) refl
stripped (c ∷ p) s =
    let same : (c ∷ "") == (c ∷ "") ≡ true = ground (arith, eq_iff (c ∷ "") (c ∷ "")) in
    rw (cons-append c p s, same, stripped p s) refl

eight :
    (digit : Char → Bool) (s : String)
    → count s ≡ 8
    → every digit s ≡ true
    → eight_digits digit s ≡ some s
unfolding eight_digits
eight digit s long digits =
    let whole : take_text 8 s ≡ s = take_text-all 8 s (omega arith) in
    let is : count s == 8 ≡ true = ground arith in rw (whole, is, digits) refl

same_text : (s : String) → s == s ≡ true
same_text s = ground (arith, eq_iff s s)

pub python_stamp-name :
    (c : Calendar) (day : ℕ)
    → IsDay c day
    → python_stamp c (events_partition_name c day) ≡ some (c.strftime day)
unfolding python_stamp events_partition_name
python_stamp-name c day k =
    rw
      (
        stripped "events_" (c.strftime day),
        eight c.is_decimal (c.strftime day) k.long k.decimal,
        same_text (c.strftime day),
      )
      refl

pub sql_stamp-name :
    (c : Calendar) (day : ℕ) → IsDay c day → sql_stamp (sql_name c day) ≡ some (c.to_char day)
unfolding sql_stamp
sql_stamp-name c day k =
    rw
      (
        k.same,
        stripped "events_" (c.strftime day),
        eight is_ascii_digit (c.strftime day) k.long k.ascii,
        same_text (c.strftime day),
      )
      refl
