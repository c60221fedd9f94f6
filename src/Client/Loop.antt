-- ===== src/Client/Loop.antt =====
-- `recv_loop` over a stream of messages, in whatever pieces the socket hands it over (src/cli.cc).
use Prim.Native.Nat.{min}
use flora.Base.{
  ℕ, suc, ◌-◌, ◌≤◌, ◌<◌, ◌≡◌, refl, sym, ap, ◌∙◌, inl, inr, false, true, List, [], ◌∷◌, ◌++◌,
  Option, none, some, length, take, drop, All, arith, append-nil, append_assoc, length-drop,
  take-append-drop, ◌==◌, nat_key, map, subst,
}
use flora.Caps.{CapsApi, CapsLaws}
use flora.Adapter.Framing.{IsFrame, IsPartial, concat}
use flora.Adapter.Stream.{cut}
use flora.Adapter.Pump.{IsPartial-nil, length-zero}
use flora.Client.State.{Session}
use flora.Client.Receive.{Receiver, recv_loop, up_to, go_on, handle_received}
use flora.Client.Stream.{
  handle_all, then_handle, then_handle-some, handle_received-handle_all, handle_message-connection,
}

lt→beq : (a b : ℕ) → a < b → (a == b) ≡ false
lt→beq a b h = ground arith

IsPartial-room :
    (api : CapsApi) (bufsize : ℕ) (bytes : List ℕ)
    → 8 ≤ bufsize
    → IsPartial api bufsize bytes
    → length bytes < bufsize
IsPartial-room api bufsize bytes room (inl short) = omega arith
IsPartial-room api bufsize bytes room (inr (version, len, long, info, less, fits)) = omega arith

module _ {api : CapsApi} (laws : CapsLaws api) (fuel : ℕ) where
  handle_all-append :
      (fs gs : List (List ℕ × api.Caps)) (st st' : Session api.Caps)
      → handle_all laws fuel (fs ++ gs) st ≡ some st'
      → (mid : Session api.Caps) × (handle_all laws fuel fs st ≡ some mid)
        × (handle_all laws fuel gs mid ≡ some st')
  unfolding handle_all
  handle_all-append [] gs st st' h = (st, refl, h)
  handle_all-append (f ∷ fs) gs st st' h =
      let (next, first, rest) =
        then_handle-some laws fuel (handle_all laws fuel (fs ++ gs)) _ st' h in
      let (mid, front, back) = handle_all-append fs gs next st' rest in
      (mid, ap (then_handle laws fuel (handle_all laws fuel fs)) first ∙ front, back)

  handle_all-connection :
      (fs : List (List ℕ × api.Caps)) (st st' : Session api.Caps)
      → handle_all laws fuel fs st ≡ some st'
      → st'.connection ≡ st.connection
  unfolding handle_all
  handle_all-connection [] st st' h = ground arith
  handle_all-connection (f ∷ fs) st st' h =
      let (next, first, rest) = then_handle-some laws fuel (handle_all laws fuel fs) _ st' h in
      handle_all-connection fs next st' rest
      ∙ handle_message-connection laws fuel st next f.1 true first

  loop_end :
      (fs : List (List ℕ × api.Caps)) (r : Receiver api.Caps) (st' : Session api.Caps) (bufsize : ℕ)
      → IsPartial api bufsize r.rbuffer
      → All (IsFrame api bufsize) fs
      → r.rbuffer ++ [] ≡ concat fs
      → handle_all laws fuel fs r.session ≡ some st'
      → r ≡ record { session = st'; rbuffer = [] }
  unfolding handle_all
  loop_end fs r st' bufsize partial ok e h =
      let held : r.rbuffer ≡ concat fs = sym (append-nil r.rbuffer) ∙ e in
      let nothing : fs ≡ [] = IsPartial-nil laws bufsize r.rbuffer fs partial ok held in
      let same : ◌≡◌ {A = Option (Session api.Caps)} (some r.session) (some st') =
        subst (λ l. handle_all laws fuel l r.session ≡ some st') nothing h in
      let end : r.session ≡ st' =
        ap (λ (o : Option (Session api.Caps)). elim o [ none ↦ r.session | some s ↦ s ]) same in
      λ i. record { session = end i; rbuffer = (held ∙ ap concat nothing) i }

  -- A client whose buffer holds at least 8 bytes handles a stream of messages that each fit the
  -- buffer one after the other and in order, however the stream is cut into reads, once there were
  -- as many reads as bytes, if no handler refuses its message; the buffer is empty in the end.
  pub recv_loop-handle_all :
      (ns : List ℕ) (bufsize : ℕ) (r : Receiver api.Caps) (stream : List ℕ)
      (fs : List (List ℕ × api.Caps)) (st' : Session api.Caps)
      → r.session.connection.bufsize ≡ bufsize
      → 8 ≤ bufsize
      → IsPartial api bufsize r.rbuffer
      → All (IsFrame api bufsize) fs
      → r.rbuffer ++ stream ≡ concat fs
      → length stream ≤ length ns
      → handle_all laws fuel fs r.session ≡ some st'
      → recv_loop api fuel (map up_to ns) r stream
        ≡ some (record { session = st'; rbuffer = [] }, [])
  unfolding recv_loop
  recv_loop-handle_all [] bufsize r stream fs st' size room partial ok e enough h =
      let over : stream ≡ [] = length-zero stream enough in
      let done = loop_end fs r st' bufsize partial ok (ap (◌++◌ r.rbuffer) (sym over) ∙ e) h in
      λ i. some (done i, over i)
  recv_loop-handle_all (n ∷ ns) bufsize r [] fs st' size room partial ok e enough h =
      let free = IsPartial-room api bufsize r.rbuffer room partial in
      rw (lt→beq (length r.rbuffer) r.session.connection.bufsize (omega (arith, free, size)))
        (λ i. some (loop_end fs r st' bufsize partial ok e h i, []))
  recv_loop-handle_all (n ∷ ns) bufsize r (b ∷ bs) fs st' size room partial ok e enough h =
      let free = IsPartial-room api bufsize r.rbuffer room partial in
      let k = min n (bufsize - length r.rbuffer - 1) in
      let first : min (suc n) (r.session.connection.bufsize - length r.rbuffer) ≡ suc k =
        omega (arith, size, free) in
      let join : (r.rbuffer ++ b ∷ take k bs) ++ drop k bs ≡ concat fs =
        append_assoc r.rbuffer (b ∷ take k bs) (drop k bs)
        ∙ ap (λ (l : List ℕ). r.rbuffer ++ b ∷ l) (take-append-drop k bs)
        ∙ e in
      let c = cut laws bufsize fs (r.rbuffer ++ b ∷ take k bs) (drop k bs) ok join in
      let (mid, front, back) =
        handle_all-append c.whole c.later r.session st'
          (ap (λ l. handle_all laws fuel l r.session) (sym c.frames) ∙ h) in
      let once : handle_received api fuel r.session (r.rbuffer ++ b ∷ take k bs)
          ≡ some (record { session = mid; rbuffer = c.tail }, true) =
        ap (handle_received api fuel r.session) c.held
        ∙ handle_received-handle_all laws fuel bufsize r.session mid c.whole c.tail c.ok c.partial
            front in
      rw
        (
          lt→beq (length r.rbuffer) r.session.connection.bufsize (omega (arith, free, size)),
          first,
          once,
          go_on,
          first,
        )
        (recv_loop-handle_all ns bufsize (record { session = mid; rbuffer = c.tail }) (drop k bs)
          c.later st'
          (ap (λ s. s.bufsize) (handle_all-connection c.whole r.session mid front) ∙ size) room
          c.partial c.later_ok c.to_come (omega (arith, length-drop k bs)) back)
