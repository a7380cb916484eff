-- ===== src/Postgres/Passes.antt =====
-- src/core/runtime.ts over src/stores/postgres.ts: passes and reviews on a `PostgresStore`.
use corrobo.Base.{String}
use corrobo.Types.{EffectContract, EffectRequest, RequestIdentity, ReviewDecision}
use corrobo.Runtime.Monad.{Host, World}
use corrobo.Runtime.Effect.{run_effect}
use corrobo.Runtime.Decision.{review_effect}
use corrobo.Protocol.{Steps}
use corrobo.Refinement.Clock.{IsReading}
use corrobo.Refinement.Setting.{AreLawful, AllNamed}
use corrobo.Refinement.Effects.{run_effect_refines}
use corrobo.Refinement.Reviews.{review_effect_refines}
use corrobo.Postgres.Sql.{Database, DatabaseLaws}
use corrobo.Postgres.Lock.{Pool}
use corrobo.Postgres.Session.{Session, postgres_store}
use corrobo.Postgres.Laws.{LeavesTable, session_view, postgres_laws}

-- The host with a `PostgresStore` as its store.
abbrev pub on_postgres : {S : Type 0} → Database S → Pool S → Host (Session S) → Host (Session S)
on_postgres db pool h = record h { store = postgres_store db pool }

-- On a `PostgresStore` a pass of `runEffect` and a call of `reviewEffect` move every record of the table
-- by steps of the protocol only, however they end and whichever queries fail, if the database and the
-- pool do as documented, every record carries the identity of its row, and what others do meanwhile
-- are steps of the protocol.
pub postgres_store_refines :
    {S : Type 0} (db : Database S) (pool : Pool S) (laws : DatabaseLaws db)
    (keeps : LeavesTable laws.table pool) (h : Host (Session S)) (c : EffectContract)
    → AreLawful (on_postgres db pool h) (postgres_laws db pool laws keeps) c
    → (input : EffectRequest) (requested : RequestIdentity) (decision : ReviewDecision)
      (w : World (Session S))
    → AllNamed (on_postgres db pool h) (postgres_laws db pool laws keeps) c w
    → (id : String)
    → Steps c
        (IsReading (on_postgres db pool h))
        id
        (session_view db laws w.state id)
        (session_view db laws (run_effect (on_postgres db pool h) c input w).1.state id)
      × Steps c (IsReading (on_postgres db pool h)) id (session_view db laws w.state id) (
          session_view db laws
            (review_effect (on_postgres db pool h) c requested decision w).1.state
            id)
unfolding postgres_laws
postgres_store_refines db pool laws keeps h c lawful input requested decision w named id = (
  run_effect_refines (on_postgres db pool h) (postgres_laws db pool laws keeps) c lawful input w
      named id,
  review_effect_refines (on_postgres db pool h) (postgres_laws db pool laws keeps) c lawful
      requested decision w named id,
)
