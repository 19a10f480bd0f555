-- ===== src/Mux/Stream/Reading/History.antt =====
-- internal/mux/stream.go, read side: histories of calls on one stream.
use ghost_vpn.Base.{
  ℕ, ◌≡◌, refl, sym, ap, ◌∙◌, inl, inr, Option, none, some, List, [], ◌∷◌, ◌++◌, Bytes, concat,
  arith, append_assoc, append-nil, take-append-drop, concat-append, take_all, Option-cases, take,
  drop,
}
use ghost_vpn.Io.{Error}
use ghost_vpn.Mux.Stream.{Stream, read, deliver_data, deliver_err}
use ghost_vpn.Mux.Stream.Reading.{
  IsValid, unread, read_messages, seen, read_refines, deliver_data-IsValid, deliver_err-IsValid,
  read-IsValid, unread_from-append,
}

-- The calls on the read side of a stream, by the connection and by the reader.
pub data Event : Type 0 where
  data_arrives : Bytes → Event
  error_arrives : Error → Event
  reads : ℕ → Event

-- One call, with the bytes that readers have got so far. A read that waits changes nothing.
step : Event → Stream → Bytes → Stream × Bytes
step (data_arrives p) s out = (deliver_data p s, out)
step (error_arrives e) s out = (deliver_err e s, out)
step (reads k) s out = elim (read s k) [ none ↦ (s, out) | some (s', got, e) ↦ (s', out ++ got) ]

unfoldable pub run : List Event → Stream → Bytes → Stream × Bytes
unfolding step
run [] s out = (s, out)
run (ev ∷ evs) s out = let (s', out') = step ev s out in run evs s' out'

-- The bytes of the messages that arrive before the first error.
abbrev pub accepted : Option Error → List Event → Bytes
accepted (some e) evs = []
accepted none [] = []
accepted none (data_arrives p ∷ evs) = p ++ accepted none evs
accepted none (error_arrives e ∷ evs) = []
accepted none (reads k ∷ evs) = accepted none evs

concat-read_messages :
    (k : ℕ) (ms : List Bytes) (e : Option Error) {ms' : List Bytes} {got : Bytes}
    {e' : Option Error}
    → read_messages k ms e ≡ some (ms', got, e')
    → got ++ concat ms' ≡ concat ms
concat-read_messages k [] none h = absurd (ground arith)
concat-read_messages k [] (some x) h = ground arith
concat-read_messages k (m ∷ ms) e h =
    ground
      (arith, take_all k m, take-append-drop k m, append_assoc (take k m) (drop k m) (concat ms))

concat-read :
    (s : Stream) (k : ℕ) {s' : Stream} {got : Bytes} {e : Option Error}
    → IsValid s
    → read s k ≡ some (s', got, e)
    → got ++ concat (unread s') ≡ concat (unread s)
concat-read s k v h =
    concat-read_messages k (unread s) s.read_err (sym (read_refines s k v) ∙ ap seen h)

accepted-nil : (e : Option Error) → accepted e [] ≡ []
accepted-nil none = refl
accepted-nil (some e) = refl

accepted-reads :
    (e : Option Error) (k : ℕ) (evs : List Event) → accepted e (reads k ∷ evs) ≡ accepted e evs
accepted-reads none k evs = refl
accepted-reads (some e) k evs = refl

abbrev Conserves : Event → Stream → Bytes → Type 0
Conserves ev s out =
    let (s', out') = step ev s out in
    IsValid s'
    × ((evs : List Event)
        → out' ++ (concat (unread s') ++ accepted s'.read_err evs)
          ≡ out ++ (concat (unread s) ++ accepted s.read_err (ev ∷ evs)))

step-Conserves : (ev : Event) (s : Stream) (out : Bytes) → IsValid s → Conserves ev s out
unfolding step deliver_data deliver_err
step-Conserves (data_arrives p) s out v = (
  deliver_data-IsValid p s v,
  λ evs. ground (
    arith,
    unread_from-append s.read_off s.read_msgs p,
    concat-append (unread s) (p ∷ []),
    append-nil p,
    append_assoc (concat (unread s)) p (accepted none evs),
  ),
)
step-Conserves (error_arrives e) s out v =
    (deliver_err-IsValid e s v, λ evs. ground (arith, accepted-nil s.read_err))
step-Conserves (reads k) s out v = elim (Option-cases (read s k)) [
  | inl h ↦ rw (h, step) (v, λ evs. rw accepted-reads)
  | inr ((s', got, e), h) ↦
      rw (h, step)
        (
          (read-IsValid s k v h).0,
          λ evs. ground (
            arith,
            (read-IsValid s k v h).1,
            accepted-reads s.read_err k evs,
            concat-read s k v h,
            append_assoc out got (concat (unread s') ++ accepted s'.read_err evs),
            append_assoc got (concat (unread s')) (accepted s'.read_err evs),
          ),
        )
]

-- Whatever order messages, errors and reads come in, the bytes that readers have got, and then
-- those still queued, are the bytes of the messages that arrived before the first error: none is
-- lost, repeated or moved.
pub run_conserves :
    (evs : List Event) (s : Stream) (out : Bytes)
    → IsValid s
    → let (s', out') = run evs s out in
      out' ++ concat (unread s') ≡ out ++ (concat (unread s) ++ accepted s.read_err evs)
unfolding run
run_conserves [] s out v = simp (accepted-nil, append-nil)
run_conserves (ev ∷ evs) s out v =
    let c = step-Conserves ev s out v in
    run_conserves evs (step ev s out).0 (step ev s out).1 c.0 ∙ c.1 evs
