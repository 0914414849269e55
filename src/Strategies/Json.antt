-- ===== src/Strategies/Json.antt =====
-- The JSON values that a plan's `model_dump(mode="json")` gives: a scalar that is no text is one of an
-- abstract type.
use china_a_share.Prelude.{Text}

mutual
  pub data Json (S : Type 0) : Type 0 where
    scalar : S → Json S
    string : Text → Json S
    object : Fields S → Json S
    array : Items S → Json S

  -- The entries of a dict, in their order.
  pub data Fields (S : Type 0) : Type 0 where
    no_field : Fields S
    field : Text → Json S → Fields S → Fields S

  pub data Items (S : Type 0) : Type 0 where
    no_item : Items S
    item : Json S → Items S → Items S
