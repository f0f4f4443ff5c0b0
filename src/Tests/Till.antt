-- ===== src/Tests/Till.antt =====
-- The till with two products, and a player's order.
use greenlink.Prelude.{ℕ, String, ◌≡◌, refl, none, some, List, [], ◌∷◌, All, false}
use greenlink.Prelude.Text.{◌++ₛ◌, show}
use greenlink.Prelude.Int.{pos, negsuc}
use greenlink.Types.Orders.{OrderMenuItem}
use greenlink.PlayerOrder.{handle_place_order}
use greenlink.PlayerOrder.Taps
use greenlink.PlayerOrder.Taps.{Tap, up, down, tally, handle_place_order_lem}
use greenlink.Pos.Cart.{quantity_of, IsCart}
use greenlink.Pos.Basket.{CartOp, add, change, remove, run, meanings, replay, run-IsCart}
use greenlink.Pos.Prices.{IsPriced, run-IsPriced}

-- A total as the text of the product.
abbrev total_text : String → ℕ → String
total_text unit_price quantity = unit_price ++ₛ "x" ++ₛ show quantity

abbrev first_text : String → String
first_text unit_price = unit_price ++ₛ "x" ++ₛ show 1

-- Two balls, one of them with another button, a glove that is taken out again, and a tee.
abbrev sale : List CartOp
sale =
    add (some "ball") "Ball" "4.50"
    ∷ add (some "glove") "Glove" "20.00"
    ∷ change 0 (pos 1)
    ∷ change 1 (negsuc 0)
    ∷ add none "Tee" "1.00"
    ∷ []

run-IsCart_example :
    (quantity_of (run total_text first_text sale []) "ball"
      ≡ replay (meanings total_text first_text sale []) (λ k. 0) "ball")
    × IsCart (run total_text first_text sale [])
run-IsCart_example = run-IsCart total_text first_text sale "ball"

abbrev two_balls : List CartOp
two_balls = add (some "ball") "Ball" "4.50" ∷ add (some "ball") "Ball" "4.50" ∷ remove 1 ∷ []

run-IsPriced_example :
    All (IsPriced total_text first_text (λ key. "4.50")) (run total_text first_text two_balls [])
run-IsPriced_example =
    run-IsPriced total_text first_text (λ key. "4.50") two_balls (λ p. refl)
      (refl, (refl, (tt, tt)))

abbrev menu : List OrderMenuItem
menu =
    record { product_id = "pie"; item_name = "Pie"; description = ""; unit_price = "5.00" }
    ∷ record { product_id = "tea"; item_name = "Tea"; description = ""; unit_price = "2.00" }
    ∷ []

abbrev taps : List Tap
taps = up "tea" ∷ up "pie" ∷ down "pie" ∷ down "pie" ∷ up "tea" ∷ []

handle_place_order_lem_example :
    handle_place_order menu false
      (Taps.run taps (record { quantities = []; feedback_message = none; confirmation = none }))
    ≡ Taps.placed false (Taps.lines menu (tally taps (λ k. 0)))
handle_place_order_lem_example = handle_place_order_lem taps menu false none none
