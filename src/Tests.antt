-- ===== src/Tests.antt =====
-- The data of the README's example, which the tests run.
mod Engine
mod Stream
mod M0
mod Correlation
mod Topology
mod Exact
mod Observation
use reconcileflow.Base.{ℕ, none, some, List, [], ◌∷◌}
use reconcileflow.Base.Order.{Text}
use reconcileflow.Base.Int.{pos}
use reconcileflow.Decimal.{Decimal, decimal_zero}
use reconcileflow.Models.{Record, Tolerance}

abbrev pub cents : ℕ → Decimal
cents n = record { coefficient = pos n; places = 2 }

abbrev pub account : Text
account = b'A' ∷ []

abbrev pub left_a : Record
left_a = record {
  id = 1 ∷ [];
  account = account;
  amount = cents 125000;
  value_date = 11;
  reference = none;
  currency = none;
}

abbrev pub left_b : Record
left_b = record {
  id = 2 ∷ [];
  account = account;
  amount = cents 8990;
  value_date = 12;
  reference = some (7 ∷ []);
  currency = none;
}

abbrev pub left_two : List Record
left_two = left_a ∷ left_b ∷ []

abbrev pub right_a : Record
right_a = record {
  id = 1 ∷ [];
  account = account;
  amount = cents 80000;
  value_date = 11;
  reference = none;
  currency = none;
}

abbrev pub right_b : Record
right_b = record {
  id = 2 ∷ [];
  account = account;
  amount = cents 45000;
  value_date = 12;
  reference = none;
  currency = none;
}

abbrev pub right_c : Record
right_c = record {
  id = 3 ∷ [];
  account = account;
  amount = cents 9140;
  value_date = 10;
  reference = some (7 ∷ []);
  currency = none;
}

abbrev pub right_three : List Record
right_three = right_a ∷ right_b ∷ right_c ∷ []

abbrev pub tol_days : Tolerance
tol_days = record {
  amount_abs = cents 50;
  amount_rel = decimal_zero;
  date_days = 3;
  max_aggregate_size = 3;
  max_block_candidates = 32;
}
