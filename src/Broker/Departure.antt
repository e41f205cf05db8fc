-- ===== src/Broker/Departure.antt =====
-- gpibd.c: a client from its first request to the reaping of its session.
use darwin_gpib.Prelude.{◌≡◌, List, [], ◌∷◌, ◌++◌, none, some, All}
use darwin_gpib.Broker.{IoKit, Server, Desc, M, ◌>>=◌, pure}
use darwin_gpib.Broker.Boards.{session_reap}
use darwin_gpib.Broker.Requests.{Request, Reply, handle_request}
use darwin_gpib.Broker.Replies.{Bounded}
use darwin_gpib.Broker.Told.{Roomy, told}
use darwin_gpib.Broker.Ownership.{handle_request-told}
use darwin_gpib.Broker.Recording.{Recorded, recording}
use darwin_gpib.Broker.Reaping.{Online, close_calls, session_reap_log}

-- The requests of one client, one after the other, with their replies.
unfoldable pub serve : {W : Type 0} → IoKit W → List Request → M W (List Reply)
serve k [] = pure []
serve k (r ∷ rs) = do a ← handle_request k r; as_told ← serve k rs; pure (a ∷ as_told)

-- What the client may conclude from all of them.
unfoldable pub told_all : List Request → List Reply → List Desc → List Desc
told_all (r ∷ rs) (a ∷ more) ds = told_all rs more (told r a ds)
told_all rs replies ds = ds

module _ {W : Type 0} (k : IoKit W) (bounded : Bounded k) (roomy : Roomy k) where
  serve-told :
      (rs : List Request) (ds : List Desc) (s : Server W)
      → s.descs ≡ some ds
      → (serve k rs s).1.descs ≡ some (told_all rs (serve k rs s).0 ds)
  unfolding serve told_all
  serve-told [] ds s had = had
  serve-told (r ∷ rs) ds s had =
      let (a, t) = handle_request k r s in
      serve-told rs (told r a ds) t (handle_request-told k r bounded roomy ds s had)

-- Where a call of the driver writes no more than the output buffer holds and counts no more than
-- that, and memory is to be had: a client opens its session, makes any requests, which the driver
-- answers in any way, and goes. If then each board on which it has something open has a number
-- below 16 and a cached connection, the driver gets one close for each descriptor that the client,
-- from its requests and the replies, has open (a close for which it asked no output does not count),
-- the latest first, on the connection of that
-- descriptor's board, and nothing else; the connections stay as they are, and the session is gone.
pub session_reap-serve :
    {W : Type 0} (k : IoKit W) (bounded : Bounded (recording k)) (roomy : Roomy (recording k))
    (rs : List Request) (s : Server (Recorded W))
    → s.descs ≡ some []
    → All
        (λ d. Online (serve (recording k) rs s).1.conns d.board)
        (told_all rs (serve (recording k) rs s).0 [])
    → (let (replies, t) = serve (recording k) rs s in
        let u = (session_reap (recording k) t).1 in
        (u.world.log ≡ t.world.log ++ close_calls t.conns (told_all rs replies []))
        × (u.conns ≡ t.conns)
        × (u.descs ≡ none))
session_reap-serve k bounded roomy rs s fresh online =
    let (replies, t) = serve (recording k) rs s in
    session_reap_log k (told_all rs replies []) t
      (serve-told (recording k) bounded roomy rs [] s fresh) online
