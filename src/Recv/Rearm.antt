-- ===== src/Recv/Rearm.antt =====
-- The descriptors are registered for one event only: what `HandleRecv::process` does last.
use cherokee.Base.{List, [], ◌∷◌, ◌++◌, none, true, false, ◌≡◌, refl, inl, inr, ◌⊎◌, ==_iff, subst}
use cherokee.Fault.{Result, ok, fault}
use cherokee.Message.{
  MsgStatus, handle_init, handle_head, handle_body, handle_complete, handle_error,
}
use cherokee.Recv.{
  Setting, Conn, Flow, next, leave, crash, RecvEnd, closed, would_block, failed, on_end, on_chunk,
  recv_loop, settle, drop_conn, store, finish, process, conn_of,
}
use cherokee.Recv.Returns.{CanAppend, IsArmed, Goes, leaves, on_chunk-Goes}
use cherokee.Text.{Bytes}
use cherokee.Utils.{modify_events}
use cherokee.World.{Effect, Tables}

-- The connection has been given up: its entry is gone, and the last things done are to take the
-- descriptor off epoll, to shut it down and to close it.
abbrev pub IsDropped : Setting → Tables → List Effect → Type 0
IsDropped s t done =
    (t.requests s.client_fd ≡ none) × (es : List Effect) × (done ≡ es ++ drop_conn s)

abbrev ArmedOrLost : Setting → Result Conn → Type 0
ArmedOrLost s (fault e) = Unit
ArmedOrLost s (ok c) = IsArmed s c.done ⊎ (c.req.status ≡ handle_error)

on_end-ArmedOrLost : (s : Setting) (c : Conn) (e : RecvEnd) → ArmedOrLost s (ok (on_end s c e))
unfolding on_end
on_end-ArmedOrLost s c closed = inr refl
on_end-ArmedOrLost s c failed = inr refl
on_end-ArmedOrLost s c would_block = inl (c.done, modify_events true true false, refl)

after_chunk :
    (s : Setting) (c : Conn) (x : Bytes) (xs : List Bytes) (e : RecvEnd)
    → CanAppend s
    → ((c' : Conn) → ArmedOrLost s (recv_loop s c' xs e))
    → (m : Flow) → on_chunk s c x ≡ m
    → Goes s m
    → ArmedOrLost s (recv_loop s c (x ∷ xs) e)
unfolding recv_loop
after_chunk s c x xs e all ih (next c') q g = rw (q, recv_loop) (ih c')
after_chunk s c x xs e all ih (leave c') q (leaves a) = rw (q, recv_loop) (inl (a all))
after_chunk s c x xs e all ih (crash f) q g = rw (q, recv_loop) tt

recv_loop-ArmedOrLost :
    (s : Setting) (c : Conn) (xs : List Bytes) (e : RecvEnd)
    → CanAppend s
    → ArmedOrLost s (recv_loop s c xs e)
unfolding recv_loop
recv_loop-ArmedOrLost s c [] e all = on_end-ArmedOrLost s c e
recv_loop-ArmedOrLost s c (x ∷ xs) e all =
    after_chunk s c x xs e all (λ c'. recv_loop-ArmedOrLost s c' xs e all) _ refl
      (on_chunk-Goes s c x)

abbrev Settled : Setting → Result (Tables × List Effect) → Type 0
Settled s (fault e) = Unit
Settled s (ok (t, done)) = IsArmed s done ⊎ IsDropped s t done

store-Settled :
    (s : Setting) (t : Tables) (c : Conn) (st : MsgStatus)
    → IsArmed s c.done ⊎ (st ≡ handle_error)
    → Settled s (ok (store s t c (settle s st c)))
store-Settled s t c handle_error h =
    inr (rw ((==_iff s.client_fd s.client_fd).1 refl) refl, c.done, refl)
store-Settled s t c handle_init (inl a) = inl a
store-Settled s t c handle_head (inl a) = inl a
store-Settled s t c handle_body (inl a) = inl a
store-Settled s t c handle_complete (inl a) = inl a
store-Settled s t c handle_init (inr e) = cc
store-Settled s t c handle_head (inr e) = cc
store-Settled s t c handle_body (inr e) = cc
store-Settled s t c handle_complete (inr e) = cc

finish-Settled :
    (s : Setting) (t : Tables) (m : Result Conn) → ArmedOrLost s m → Settled s (finish s t m)
finish-Settled s t (ok c) h = store-Settled s t c c.req.status h
finish-Settled s t (fault e) h = tt

-- Where every file can be opened for appending, a call of the handler of received bytes that returns
-- ends by waiting again for the client's descriptor, or by dropping the connection and its entry.
pub process-IsArmed :
    (s : Setting) (t t' : Tables) (chunks : List Bytes) (e : RecvEnd) (done : List Effect)
    → CanAppend s
    → process s t chunks e ≡ ok (t', done)
    → IsArmed s done ⊎ IsDropped s t' done
unfolding process
process-IsArmed s t t' chunks e done all h =
    subst (Settled s) h (finish-Settled s t _ (recv_loop-ArmedOrLost s (conn_of s t) chunks e all))
