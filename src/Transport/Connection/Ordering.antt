-- ===== src/Transport/Connection/Ordering.antt =====
-- What the socket gets, over whole runs of a connection.
use readyfleet_lightagent.Base.{ℕ, arith}
use readyfleet_lightagent.Transport.Messages.{Config, Codec}
use readyfleet_lightagent.Transport.Connection.{Conn, new_conn, Reach, here, onward}
use readyfleet_lightagent.Transport.Connection.Queue.{IsOrdered, step-Changed, Changed-IsOrdered}

-- Whatever the goroutines do, in any order, the messages that Send accepted are, in their order, those
-- that the socket took, then at most the one whose write failed, then those that wait; none is lost
-- while the write pump runs, and no more than 32 wait.
pub Reach-IsOrdered :
    (cfg : Config) (k : Codec) {c d : Conn} → IsOrdered c.out → Reach cfg k c d → IsOrdered d.out
Reach-IsOrdered cfg k v here = v
Reach-IsOrdered cfg k v (onward {d} {e} m r h) =
    Changed-IsOrdered d.out e.out (step-Changed cfg k m d e h) (Reach-IsOrdered cfg k v r)

-- The channel of a new connection is in order.
pub new_conn-IsOrdered : (now : ℕ) → IsOrdered (new_conn now).out
unfolding new_conn
new_conn-IsOrdered now = ground arith
