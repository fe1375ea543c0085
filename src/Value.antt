-- ===== src/Value.antt =====
-- The JavaScript values that the SDK passes around as `unknown`: arguments of a tool, results,
-- inputs, payloads. Numbers are natural; functions, symbols and cycles are left out. An array and
-- an object hold list types of their own, and an object's fields stand in insertion order.
use quorvel.Common.{ℕ, String, Bool}

mutual
  pub data Value : Type 0 where
    undefined : Value
    null : Value
    bool : Bool → Value
    num : ℕ → Value
    str : String → Value
    obj : Fields → Value
    arr : Items → Value

  pub data Fields : Type 0 where
    end : Fields
    field : String → Value → Fields → Fields

  pub data Items : Type 0 where
    nil : Items
    cons : Value → Items → Items
