-- ===== src/Txn/Inhibitors.antt =====
-- check_sd_inhibitor_locks of src/daemon/rpmostreed-utils.cxx. What login1 answers and the decimal digits
-- of a number are parameters; the number of locks is a C int, taken to be below 2^31.
use rpm_ostree.Prelude.{
  ℕ, ◌+◌, ◌-◌, ◌≡◌, ◌↔◌, Bool, true, false, not, ◌&&◌, Option, none, some, List, [], ◌∷◌, ◌++◌, any,
  arith, ◌==◌, ltb, if◌then◌else◌,
}
use rpm_ostree.Prelude.Text.{strstr, Text, text_eq, codes}
use rpm_ostree.Prelude.Result.{Result, ok, error, prefix_error}

-- An entry of ListInhibitors.
pub record Inhibitor : Type 0 where
  pub what : Text
  pub who : Text
  pub why : Text
  pub mode : Text

-- A shutdown inhibitor in `block` mode.
unfoldable pub blocks_shutdown : Inhibitor → Bool
blocks_shutdown i = strstr i.what (codes "shutdown") && text_eq i.mode (codes "block")

abbrev held_by : Inhibitor → Text
held_by i =
    codes "Reboot blocked by a systemd inhibitor lock in `block` mode\nHeld by: "
    ++ i.who
    ++ codes "\nReason: "
    ++ i.why

-- The loop: the number of blocking locks so far, and the message.
unfoldable count_blocking : List Inhibitor → ℕ → Text → ℕ × Text
count_blocking [] num message = (num, message)
count_blocking (i ∷ is) num message =
    let skipped = count_blocking is num message in
    let first = count_blocking is (num + 1) (message ++ held_by i) in
    let more = count_blocking is (num + 1) message in
    if blocks_shutdown i then (if num + 1 == 1 then first else more) else skipped

abbrev and_others : (ℕ → Text) → ℕ → Text
and_others decimal num =
    if ltb 1 num
    then codes "\nand "
      ++ decimal (num - 1)
      ++ codes " other blocking inhibitor lock(s)\nUse `systemd-inhibit --list` to see details"
    else []

abbrev conclude : (ℕ → Text) → ℕ × Text → Result (Unit {0})
conclude decimal (num, message) =
    if num == 0 then ok tt else error (message ++ and_others decimal num)

-- check_sd_inhibitor_locks; the answer is `none` for an empty tuple
unfoldable pub check_sd_inhibitor_locks :
    (ℕ → Text) → Result (Option (List Inhibitor)) → Result (Unit {0})
unfolding count_blocking
check_sd_inhibitor_locks decimal (error e) =
    prefix_error (codes "Checking systemd inhibitor locks") (error e)
check_sd_inhibitor_locks decimal (ok none) = error (codes "ListInhibitors returned empty tuple")
check_sd_inhibitor_locks decimal (ok (some locks)) = conclude decimal (count_blocking locks 0 [])

-- The locks are known, and none of them is a shutdown lock in `block` mode.
abbrev pub AllowsReboot : Result (Option (List Inhibitor)) → Type 0
AllowsReboot (error e) = ⊥
AllowsReboot (ok none) = ⊥
AllowsReboot (ok (some locks)) = any blocks_shutdown locks ≡ false

count_blocking_zero :
    (locks : List Inhibitor) (num : ℕ) (message : Text)
    → ((count_blocking locks num message).0 == 0) ≡ (num == 0 && not (any blocks_shutdown locks))
unfolding count_blocking
count_blocking_zero [] num message = ground arith
count_blocking_zero (i ∷ is) num message = ground (
  arith,
  count_blocking_zero is num message,
  count_blocking_zero is (num + 1) message,
  count_blocking_zero is (num + 1) (message ++ held_by i),
)

conclude_iff :
    (decimal : ℕ → Text) (r : ℕ × Text) → (conclude decimal r ≡ ok tt) ↔ ((r.0 == 0) ≡ true)
conclude_iff decimal (num, message) = ground arith

-- The check passes exactly when the locks are known and none of them blocks a shutdown.
pub check_sd_inhibitor_locks-AllowsReboot :
    (decimal : ℕ → Text) (answer : Result (Option (List Inhibitor)))
    → (check_sd_inhibitor_locks decimal answer ≡ ok tt) ↔ AllowsReboot answer
unfolding check_sd_inhibitor_locks
check_sd_inhibitor_locks-AllowsReboot decimal (error e) = ground arith
check_sd_inhibitor_locks-AllowsReboot decimal (ok none) = ground arith
check_sd_inhibitor_locks-AllowsReboot decimal (ok (some locks)) =
    ground (arith, conclude_iff decimal (count_blocking locks 0 []), count_blocking_zero locks 0 [])
