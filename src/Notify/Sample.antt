-- ===== src/Notify/Sample.antt =====
-- Natural numbers in place of float64, for the tests of modules that read numbers.
use sobs.Prelude.{ℕ, ◌-◌, ◌/◌, true, false, none, [], ltb, leb, ◌==◌, length}
use sobs.Prelude.Int.{pos, pos_part}
use sobs.Text.{decimal}
use sobs.Json.{Floats}
use sobs.Notify.Values.{Numbers}

abbrev pub floats : Floats ℕ
floats = record {
  is_zero = λ f. f == 0;
  signbit = λ f. false;
  is_nan = λ f. false;
  is_pos_inf = λ f. false;
  is_neg_inf = λ f. false;
  scientific = λ f. decimal f;
}

abbrev pub numbers : Numbers ℕ
numbers = record {
  floats = floats;
  parse = λ s. length s;
  parse_ok = λ s. true;
  parse_int = λ s. none;
  truncate = λ f. pos f;
  of_int = λ n. pos_part n;
  lt = λ a b. ltb a b;
  le = λ a b. leb a b;
  abs_below = λ a b. ltb a b;
  subtract = λ a b. a - b;
  thousandth = λ a. a / 1000;
  round4 = λ a. a;
  sprint = λ v. [];
}
