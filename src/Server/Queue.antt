-- ===== src/Server/Queue.antt =====
-- internal/server: a handler's database and the pipeline that it submits to.
use pushboy.Prelude.{Result, Exec}
use pushboy.Storage.World.{World}
use pushboy.Pipeline.Outbox.{Outbox}

pub record Site (T : Type 0) : Type 0 where
  pub world : World
  pub queue : Outbox T

module _ {T A : Type 0} where
  abbrev pub with_world : Site T → Result A × World → Result A × Site T
  with_world s (r, w) = (r, record s { world = w })

  abbrev pub with_queue : Site T → Result A × Outbox T → Result A × Site T
  with_queue s (r, q) = (r, record s { queue = q })

  unfoldable pub stored : Exec World A → Exec (Site T) A
  stored m s = with_world s (m s.world)

  unfoldable pub to_queue : Exec (Outbox T) A → Exec (Site T) A
  to_queue m s = with_queue s (m s.queue)
