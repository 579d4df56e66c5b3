-- ===== src/OrderCore/Effects/Atomic.antt =====
-- What `async with uow` promises, whatever the database answers.
use profi_notifications.Prelude.{◌≡◌, ◌⊎◌, arith}
use profi_notifications.OrderCore.Dto.{Result, ok, err}
use profi_notifications.OrderCore.Effects.{
  World, Session, Tx, ◌>>=◌, ◌>>◌, commit, in_transaction, exit_context,
}

module _ {D : Type 0} where
  -- A part of a body that commits nothing by itself, and leaves `d` if it does not raise.
  pub record Ran (d : D) (s : Session D) (out : Result Unit × Session D) : Type 0 where
    pub uncommitted : out.1.world.committed ≡ s.world.committed
    pub unsent : out.1.world.sent ≡ s.world.sent
    pub wrote : out.0 ≡ ok tt → out.1.db ≡ d

  -- A handler that returned has stored `new`; one that raised has stored that or nothing.
  abbrev pub IsAtomic : D → D → Result Unit × World D → Type 0
  IsAtomic old new (ok _, w) = w.committed ≡ new
  IsAtomic old new (err _, w) = (w.committed ≡ old) ⊎ (w.committed ≡ new)

  pub in_transaction-IsAtomic :
      (body : Tx D Unit) (w : World D) (d : D)
      → Ran d
          (record { world = w; db = w.committed })
          (body (record { world = w; db = w.committed }))
      → IsAtomic w.committed d (in_transaction (do body; commit) w)
  unfolding in_transaction ◌>>=◌ commit exit_context
  in_transaction-IsAtomic body w d h = ground arith

  pub in_transaction-sent :
      (body : Tx D Unit) (w : World D) (d : D)
      → Ran d
          (record { world = w; db = w.committed })
          (body (record { world = w; db = w.committed }))
      → (in_transaction (do body; commit) w).1.sent ≡ w.sent
  unfolding in_transaction ◌>>=◌ commit exit_context
  in_transaction-sent body w d h = ground arith

  -- Leaving the context keeps what the body promised.
  pub exit-IsAtomic :
      (body : Tx D Unit) (w : World D) (d : D)
      → (let (r, s) = body (record { world = w; db = w.committed }) in
          IsAtomic w.committed d (r, s.world))
      → IsAtomic w.committed d (in_transaction body w)
  unfolding in_transaction exit_context
  exit-IsAtomic body w d h = ground arith

abbrev pub opened : {D : Type 0} → World D → Session D
opened w = record { world = w; db = w.committed }

module _ {D A : Type 0} where
  -- Leaving the context keeps what is committed and sent, and makes no success of an error.
  pub exit_keeps :
      (body : Tx D A) (w : World D)
      → let out = body (opened w) in
        let (r, w') = in_transaction body w in
        (w'.committed ≡ out.1.world.committed)
        × (w'.sent ≡ out.1.world.sent)
        × ((a : A) → r ≡ ok a → out.0 ≡ ok a)
  unfolding in_transaction exit_context
  exit_keeps body w = (ground arith, ground arith, λ a e. ground arith)
