-- ===== src/Repository/Table.antt =====
-- What repository.py takes from boto3: a DynamoDB table with two operations, and what DynamoDB
-- documents of them. An item is a list of attributes.
use ea_trading_system.Prelude.{
  ℤ, String, ◌≡◌, Bool, true, false, Option, none, some, List, ltb_ℤ, lookup,
}
use ea_trading_system.Errors.{ok, err, conditional_check}
use ea_trading_system.Act.{Act}
use ea_trading_system.Json.{Value, whole, num}

-- A value that boto3 stores; `decimal` is `Decimal(str(x))` of a float.
pub data Attribute (F : Type 0) : Type 0 where
  plain : Value F → Attribute F
  decimal : F → Attribute F

abbrev pub Item : Type 0 → Type 0
Item F = List (String × Attribute F)

-- "attribute_not_exists(pk) AND attribute_not_exists(sk)", and
-- "attribute_not_exists(pk) OR last_heartbeat_epoch < :epoch".
pub data Condition : Type 0 where
  if_absent : Condition
  if_absent_or_older : ℤ → Condition

-- `pk` and `sk` are the item's own attributes of these names.
pub record Table (F W : Type 0) : Type 0 where
  pub put_item : (pk sk : String) → Item F → Condition → Act W (Unit {0})
  pub get_item : (pk sk : String) → Act W (Option (Item F))

abbrev pub older : Option ℤ → ℤ → Bool
older none e = false
older (some n) e = ltb_ℤ n e

module _ {F : Type 0} where
  abbrev epoch_attribute : Option (Attribute F) → Option ℤ
  epoch_attribute (some (plain (num (whole n)))) = some n
  epoch_attribute none = none
  epoch_attribute _ = none

  abbrev pub epoch_of : Item F → Option ℤ
  epoch_of item = epoch_attribute (lookup "last_heartbeat_epoch" item)

  -- The condition holds of the item that is stored under the key, if any.
  abbrev pub holds : Condition → Option (Item F) → Bool
  holds if_absent none = true
  holds if_absent (some i) = false
  holds (if_absent_or_older e) none = true
  holds (if_absent_or_older e) (some i) = older (epoch_of i) e

-- `view w pk sk` is the item under a key in the world `w`. A write takes place exactly when its
-- condition holds, a refused one changes nothing, and a read is consistent. Of a call that raises
-- anything else nothing is known: the write may have been made.
pub record TableLaws {F W : Type 0} (table : Table F W)
    (view : W → String → String → Option (Item F)) : Type 0 where
  pub put_writes :
      (pk sk : String) (i : Item F) (c : Condition) (w w' : W)
      → table.put_item pk sk i c w ≡ (ok tt, w')
      → (holds c (view w pk sk) ≡ true) × (view w' pk sk ≡ some i)
  pub put_refuses :
      (pk sk : String) (i : Item F) (c : Condition) (w w' : W)
      → table.put_item pk sk i c w ≡ (err conditional_check, w')
      → (holds c (view w pk sk) ≡ false) × ((a b : String) → view w' a b ≡ view w a b)
  pub get_reads :
      (pk sk : String) (o : Option (Item F)) (w w' : W)
      → table.get_item pk sk w ≡ (ok o, w')
      → (o ≡ view w pk sk) × ((a b : String) → view w' a b ≡ view w a b)
