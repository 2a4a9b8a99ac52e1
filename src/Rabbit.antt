-- ===== src/Rabbit.antt =====
-- internal/rabbit/rabbit.go: the queue of the kernels' results. RabbitMQ and its client library are
-- no part of the repository: `Amqp` is a parameter, over the state `W` of the world outside;
-- connections, channels and streams of deliveries are known by a number.
use noted_runner.Prelude.{
  ℕ, ◌≡◌, refl, sym, ap, subst, Bool, true, false, Option, none, some, Text, ascii, Outcome, ok,
  panic,
}
use noted_runner.Effects.{
  Effect, proceed, ◌>>=◌, given, Returns, Returns-proceed, Returns-given, Returns-ok,
}
use noted_runner.Logger.{Logger}

-- The Booleans are those of the calls of amqp091, in its order.
pub record Amqp (W : Type 0) : Type 0 where
  pub dial : Text → Effect W ℕ
  pub open_channel : ℕ → Effect W ℕ
  -- name, durable, delete when unused, exclusive, no-wait; the queue's name
  pub queue_declare : ℕ → Text → Bool → Bool → Bool → Bool → Effect W Text
  -- queue, consumer, auto-ack, exclusive, no-local, no-wait; the deliveries
  pub consume : ℕ → Text → Text → Bool → Bool → Bool → Bool → Effect W ℕ
  pub close_channel : ℕ → W → Option Text × W
  pub close_connection : ℕ → W → Option Text × W

pub record RabbitQueue : Type 0 where
  pub conn : Option ℕ
  pub channel : Option ℕ
  pub logger : Option Logger
  pub queue : ℕ

module _ {W : Type 0} (amqp : Amqp W) where
  -- The field `logger` of what `NewRabbit` returns is left nil.
  unfoldable pub new_rabbit : Text → Text → Effect W RabbitQueue
  unfolding given
  new_rabbit address chan_name = do
    conn ← amqp.dial address
    ch ← amqp.open_channel conn
    q ← amqp.queue_declare ch chan_name false false false false
    messages ← amqp.consume ch q (ascii "") true false false false
    given (ok (record { conn = some conn; channel = some ch; logger = none; queue = messages }))

  -- a call that logs its error: a panic where there is no logger
  unfoldable pub logged : Option Logger → Option Text × W → Outcome (Unit {0}) × W
  logged logger (none, w) = (ok tt, w)
  logged none (some x, w) = (panic, w)
  logged (some l) (some x, w) = (ok tt, w)

  unfoldable pub close_channel_of : RabbitQueue → Option ℕ → Effect W (Unit {0})
  unfolding logged
  close_channel_of rq none w = (ok tt, w)
  close_channel_of rq (some ch) w = logged rq.logger (amqp.close_channel ch w)

  unfoldable pub close_connection_of : RabbitQueue → Option ℕ → Effect W (Unit {0})
  unfolding logged
  close_connection_of rq none w = (ok tt, w)
  close_connection_of rq (some conn) w = logged rq.logger (amqp.close_connection conn w)

  -- `Close`
  unfoldable pub close : RabbitQueue → Effect W (Unit {0})
  unfolding close_channel_of close_connection_of
  close rq = do _ ← close_channel_of rq rq.channel; close_connection_of rq rq.conn

  -- the shape of what `NewRabbit` returns
  abbrev made : ℕ → ℕ → ℕ → RabbitQueue
  made conn ch messages = record {
    conn = some conn;
    channel = some ch;
    logger = none;
    queue = messages;
  }

  Made : RabbitQueue → Type 0
  Made q = (conn : ℕ) × (ch : ℕ) × (messages : ℕ) × (made conn ch messages ≡ q)

  new_rabbit-Made :
      (address chan_name : Text) (w : W) → Returns Made (new_rabbit address chan_name w)
  unfolding new_rabbit Made
  new_rabbit-Made address chan_name w = Returns-proceed Made _ _ (λ conn w1 e1.
      Returns-proceed Made _ _ (λ ch w2 e2. Returns-proceed Made _ _ (λ name w3 e3.
        Returns-proceed Made _ _
          (λ messages w4 e4. Returns-given Made _ w4 (conn, ch, messages, refl)))))

  -- what `Close` does by what becomes of the channel and the connection
  unfoldable pub Crashes : ℕ → ℕ → RabbitQueue → Type 0
  Crashes ch conn q =
      ((u t : W) (x : Text) → amqp.close_channel ch u ≡ (some x, t) → close q u ≡ (panic, t))
      × ((u t s : W) (x : Text)
          → amqp.close_channel ch u ≡ (none, t)
          → amqp.close_connection conn t ≡ (some x, s)
          → close q u ≡ (panic, s))
      × ((u t s : W)
          → amqp.close_channel ch u ≡ (none, t)
          → amqp.close_connection conn t ≡ (none, s)
          → close q u ≡ (ok tt, s))

  close-made : (conn ch messages : ℕ) → Crashes ch conn (made conn ch messages)
  unfolding Crashes close close_channel_of close_connection_of logged proceed
  close-made conn ch messages =
      (λ u t x e. rw e refl, λ u t s x e f. rw (e, f) refl, λ u t s e f. rw (e, f) refl)

  -- `Close` of the queue that `NewRabbit` returns panics where the channel cannot be closed, and then
  -- leaves the connection open; it also panics where the channel is closed and the connection cannot
  -- be. It succeeds where both are closed.
  pub close-new_rabbit :
      (address chan_name : Text) (w v : W) (q : RabbitQueue)
      → new_rabbit address chan_name w ≡ (ok q, v)
      → (ch : ℕ) × (conn : ℕ) × (q.channel ≡ some ch) × (q.conn ≡ some conn) × Crashes ch conn q
  unfolding Made
  close-new_rabbit address chan_name w v q e =
      let (conn, ch, messages, shape) =
        Returns-ok Made _ q v (new_rabbit-Made address chan_name w) e in
      (
        ch,
        conn,
        ap (λ r. r.channel) (sym shape),
        ap (λ r. r.conn) (sym shape),
        subst (Crashes ch conn) shape (close-made conn ch messages),
      )
