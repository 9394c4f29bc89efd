-- ===== src/Config.antt =====
-- daemon/src/config.rs: the archive's budget and retention, from their environment variables, and
-- `validate_mime` of daemon/src/store/mod.rs.
use rldyour_clipboard.Prelude.{
  ℕ, ◌+◌, ◌-◌, ◌*◌, ◌/◌, ◌≤◌, ◌<◌, ◌≡◌, refl, Bool, not, ◌&&◌, Option, none, some, [], ◌∷◌, arith,
  leb, ◌==◌, if◌then◌else◌, length, all, Text, codes, utf8,
}

abbrev pub default_retention_days : ℕ
default_retention_days = 7

-- 5 GiB
abbrev pub default_budget : ℕ
default_budget = 5368709120

abbrev pub i64_max : ℕ
i64_max = 9223372036854775807

abbrev pub u64_max : ℕ
u64_max = 18446744073709551615

abbrev pub seconds_per_day : ℕ
seconds_per_day = 86400

unfoldable pub is_digit : ℕ → Bool
is_digit c = leb b'0' c && leb c b'9'

abbrev pub digits_value : ℕ → Text → ℕ
digits_value acc [] = acc
digits_value acc (c ∷ cs) = digits_value (acc * 10 + (c - b'0')) cs

-- The digits of `str::parse`, up to the largest value of the type.
unfoldable pub digits_upto : ℕ → Text → Option ℕ
unfolding is_digit
digits_upto most [] = none
digits_upto most (c ∷ cs) =
    let value = digits_value 0 (c ∷ cs) in
    if all is_digit (c ∷ cs) && leb value most then some value else none

-- `str::parse` to an unsigned number: digits, a plus in front of them allowed.
unfoldable pub parse_unsigned : ℕ → Text → Option ℕ
unfolding digits_upto
parse_unsigned most [] = none
parse_unsigned most (c ∷ cs) = if c == b'+' then digits_upto most cs else digits_upto most (c ∷ cs)

-- `str::parse::<i64>` and the filter that drops what is negative. Of the values with a minus in
-- front, the filter keeps the zeros.
unfoldable pub parse_i64_from_zero : Text → Option ℕ
unfolding parse_unsigned digits_upto
parse_i64_from_zero [] = none
parse_i64_from_zero (c ∷ cs) =
    if c == b'-' then digits_upto 0 cs else parse_unsigned i64_max (c ∷ cs)

abbrev pub given_budget : Option ℕ → ℕ
given_budget none = default_budget
given_budget (some value) = if value == 0 then i64_max else value

unfoldable pub parse_budget : Option Text → ℕ
unfolding parse_i64_from_zero
parse_budget none = given_budget none
parse_budget (some value) = given_budget (parse_i64_from_zero value)

abbrev pub retention_of_days : ℕ → Option ℕ
retention_of_days days = if days == 0 then none else some (days * seconds_per_day)

abbrev pub accepted_days : Option ℕ → ℕ
accepted_days none = default_retention_days
accepted_days (some days) = if leb days 36500 then days else default_retention_days

unfoldable pub parse_retention : Option Text → Option ℕ
unfolding parse_unsigned
parse_retention none = retention_of_days (accepted_days none)
parse_retention (some value) = retention_of_days (accepted_days (parse_unsigned u64_max value))

-- Store::retention_days
unfoldable pub retention_days : Option ℕ → Option ℕ
retention_days none = none
retention_days (some seconds) = some (seconds / seconds_per_day)

unfoldable pub is_valid_mime : Text → Bool
unfolding utf8
is_valid_mime mime =
    let bytes = utf8 mime in
    not (length bytes == 0)
    && leb (length bytes) 256
    && all (λ byte. leb 32 byte && leb byte 126) bytes

policy :
    (parse_retention none ≡ some 604800)
    × (parse_retention (some (codes "-1")) ≡ some 604800)
    × (parse_retention (some (codes "bad")) ≡ some 604800)
    × (parse_retention (some (codes "0")) ≡ none)
    × (parse_budget (some (codes "0")) ≡ i64_max)
    × (parse_budget (some (codes "-1")) ≡ default_budget)
    × (parse_budget (some (codes "+25")) ≡ 25)
unfolding parse_retention parse_budget
policy = (refl, refl, refl, refl, refl, refl, refl)

digits_upto-le : (most : ℕ) (s : Text) → elim (digits_upto most s) [ none ↦ 0 | some v ↦ v ] ≤ most
unfolding digits_upto
digits_upto-le most [] = omega arith
digits_upto-le most (c ∷ cs) = ground arith

parse_i64-le : (s : Text) → elim (parse_i64_from_zero s) [ none ↦ 0 | some v ↦ v ] ≤ i64_max
unfolding parse_i64_from_zero parse_unsigned
parse_i64-le [] = omega arith
parse_i64-le (c ∷ cs) =
    ground (arith, digits_upto-le 0 cs, digits_upto-le i64_max cs, digits_upto-le i64_max (c ∷ cs))

given_budget-in_range :
    (v : Option ℕ)
    → elim v [ none ↦ 0 | some n ↦ n ] ≤ i64_max
    → (0 < given_budget v) × (given_budget v ≤ i64_max)
given_budget-in_range none h = (omega arith, omega arith)
given_budget-in_range (some n) h = (ground arith, ground arith)

-- The budget is never 0 and fits the signed 64-bit integer it is kept in, whatever the variable
-- holds.
pub parse_budget-in_range :
    (value : Option Text) → (0 < parse_budget value) × (parse_budget value ≤ i64_max)
unfolding parse_budget
parse_budget-in_range none = (omega arith, omega arith)
parse_budget-in_range (some s) = given_budget-in_range (parse_i64_from_zero s) (parse_i64-le s)

accepted_days-le : (v : Option ℕ) → accepted_days v ≤ 36500
accepted_days-le none = omega arith
accepted_days-le (some n) = ground arith

retention_of_days-in_range :
    (d s : ℕ) → d ≤ 36500 → retention_of_days d ≡ some s → (86400 ≤ s) × (s ≤ 3153600000)
retention_of_days-in_range d s h e = ground arith

-- Whatever the variable holds, entries expire after a day at the earliest and after 36,500 days at
-- the latest, or not at all.
pub parse_retention-in_range :
    (value : Option Text) (seconds : ℕ)
    → parse_retention value ≡ some seconds
    → (86400 ≤ seconds) × (seconds ≤ 3153600000)
unfolding parse_retention
parse_retention-in_range none seconds e =
    retention_of_days-in_range (accepted_days none) seconds (accepted_days-le none) e
parse_retention-in_range (some s) seconds e =
    retention_of_days-in_range (accepted_days (parse_unsigned u64_max s)) seconds
      (accepted_days-le (parse_unsigned u64_max s)) e
