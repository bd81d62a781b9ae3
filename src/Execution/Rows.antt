-- ===== src/Execution/Rows.antt =====
-- Lists of writes grown by one, and the indexes over books grown by one.
use crypto_trading_system.Base.{
  String, ◌≡◌, refl, ◌∙◌, true, false, none, some, List, [], ◌∷◌, ◌++◌, arith, is_some,
}
use crypto_trading_system.Base.Dict.{Dict, lookup, insert, lookup-insert}
use crypto_trading_system.Models.{PaperOrderState, PaperFillState}
use crypto_trading_system.Execution.State.{Engine, Write, save_state, persist_execution, remember}
use crypto_trading_system.Execution.Repository.{
  Database, run_write, run_writes, client_index, has_unknown_order,
}

module _ {D : Type 0} where
  pub run_writes-append :
      (x : Engine D) (ws : List (Write D)) (w : Write D) (db : Database D)
      → run_writes x (ws ++ (w ∷ [])) db ≡ run_write x w (run_writes x ws db)
  unfolding run_writes
  run_writes-append x [] w db = refl
  run_writes-append x (v ∷ ws) w db = run_writes-append x ws w (run_write x v db)

  run_write_numeric :
      (x : Engine D) (w : Write D) (db : Database D) → (run_write x w db).numeric ≡ db.numeric
  unfolding run_write
  run_write_numeric x save_state db = refl
  run_write_numeric x (persist_execution order fill position) db = ground arith

  -- No write changes what the columns keep of a number.
  pub run_writes_numeric :
      (x : Engine D) (ws : List (Write D)) (db : Database D)
      → (run_writes x ws db).numeric ≡ db.numeric
  unfolding run_writes
  run_writes_numeric x [] db = refl
  run_writes_numeric x (w ∷ ws) db =
      run_writes_numeric x ws (run_write x w db) ∙ run_write_numeric x w db

  pub client_index-insert :
      (known : Dict String) (k : String) (o : PaperOrderState D) (rows : Dict (PaperOrderState D))
      → lookup k rows ≡ none
      → client_index known (insert k o rows)
        ≡ remember o.client_order_id o.order_id (client_index known rows)
  unfolding client_index remember lookup insert
  client_index-insert known k o [] h = ground arith
  client_index-insert known k o ((j, p) ∷ rows) h = ground (
    arith,
    client_index-insert
        (elim p.client_order_id [ none ↦ known | some c ↦ insert c p.order_id known ]) k o rows,
  )

  pub has_unknown_order-insert_order :
      (k : String) (o : PaperOrderState D) (fills : Dict (PaperFillState D))
      (orders : Dict (PaperOrderState D))
      → has_unknown_order fills orders ≡ false
      → has_unknown_order fills (insert k o orders) ≡ false
  unfolding has_unknown_order
  has_unknown_order-insert_order k o [] orders h = refl
  has_unknown_order-insert_order k o ((j, f) ∷ fills) orders h =
      ground (
        arith,
        lookup-insert k f.order_id o orders,
        has_unknown_order-insert_order k o fills orders,
      )

  pub has_unknown_order-insert_fill :
      (k : String) (f : PaperFillState D) (fills : Dict (PaperFillState D))
      (orders : Dict (PaperOrderState D))
      → has_unknown_order fills orders ≡ false
      → is_some (lookup f.order_id orders) ≡ true
      → has_unknown_order (insert k f fills) orders ≡ false
  unfolding has_unknown_order insert
  has_unknown_order-insert_fill k f [] orders h n = ground arith
  has_unknown_order-insert_fill k f ((j, g) ∷ fills) orders h n =
      ground (arith, has_unknown_order-insert_fill k f fills orders)
