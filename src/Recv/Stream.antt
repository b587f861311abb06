-- ===== src/Recv/Stream.antt =====
-- A connection fed from its byte stream by a sequence of readable events.
use my_nignx.Prelude.{
  ◌>>=◌, ℕ, suc, ◌≤◌, ◌<◌, ◌≡◌, refl, sym, ap, ◌∙◌, List, [], ◌∷◌, ◌++◌, append-nil, append_assoc,
  Option, some, arith, length, length-take, length-drop, take, drop, take-append-drop,
}
use Prim.Native.Nat.{min}
use my_nignx.Sys.{eintr}
use my_nignx.Conn.{Connection, Message, pkg_hd_init}
use my_nignx.Recv.{RecvCall, got, failed, event_readable_request_handler}
use my_nignx.Recv.Framing.{
  decode, decode-append, decode-settle, decode-concat, AllPackets, concat, settle, wanted,
}
use my_nignx.Recv.State.{
  Holds, idle, messages, messages_eq, Settles, asked, asked-wanted, asked_pos, Holds-IsPartial,
}
use my_nignx.Recv.Machine.{chunk-Settles, interrupted-Settles}

-- What the environment makes of an event: `n + 1` bytes are ready (`recv` gives out at most what it
-- is asked for), or a signal interrupts the call.
pub data Event : Type 0 where
  ready : ℕ → Event
  interrupted : Event

pub record Served : Type 0 where
  pub conn : Connection
  pub queued : List (Option Message)
  pub unread : List ℕ

abbrev then_queue : List (Option Message) → Option Served → Option Served
then_queue ms r = do v ← r; some (record v { queued = ms ++ v.queued })

-- The calls of the handler for one connection. An event that finds nothing to read is not
-- reported by epoll, and makes no call.
pub serve : ℕ → Connection → List Event → List ℕ → Option Served
serve self c [] s = some (record { conn = c; queued = []; unread = s })
serve self c (interrupted ∷ es) s = do
  h ← event_readable_request_handler self c (failed eintr)
  then_queue h.queued (serve self h.conn es s)
serve self c (ready n ∷ es) [] = serve self c es []
serve self c (ready n ∷ es) (b ∷ s) = do
  h ← event_readable_request_handler self c (got (take (min (suc n) (asked self c)) (b ∷ s)))
  then_queue h.queued (serve self h.conn es (drop (min (suc n) (asked self c)) (b ∷ s)))

abbrev pub readies : List Event → ℕ
readies [] = 0
readies (interrupted ∷ es) = readies es
readies (ready n ∷ es) = suc (readies es)

module _ (self : ℕ) where
  -- A run that read some of the stream: its messages are the packets decoded from that part.
  pub record Delivers (c : Connection) (x s : List ℕ) (es : List Event) (r : Option Served)
      : Type 0 where
    pub taken : List ℕ
    pub rest : List ℕ
    pub after : Connection
    pub split : taken ++ rest ≡ s
    pub returns :
        r
        ≡ some (record { conn = after; queued = messages self c (decode x taken).1; unread = rest })
    pub holds : Holds self after (decode x taken).0
    pub same_sequence : after.sequence ≡ c.sequence
    pub all : length s ≤ readies es → rest ≡ []

  messages-append :
      (c : Connection) (ps qs : List (List ℕ))
      → messages self c (ps ++ qs) ≡ messages self c ps ++ messages self c qs
  messages-append c [] qs = refl
  messages-append c (p ∷ ps) qs = cc (messages-append c ps qs)

  -- One call of the handler in front of a run.
  Delivers-cons :
      (c : Connection) (x bs s : List ℕ) (e : Event) (es : List Event) (call : RecvCall)
      → length bs ≤ wanted x
      → Holds self c x
      → (v : Settles self c (x ++ bs) (event_readable_request_handler self c call))
      → (length (bs ++ s) ≤ readies (e ∷ es) → length s ≤ readies es)
      → Delivers v.out.conn (settle (x ++ bs)).0 s es (serve self v.out.conn es s)
      → Delivers c x (bs ++ s) (e ∷ es) (
          event_readable_request_handler self c call >>= λ h.
          then_queue h.queued (serve self h.conn es s))
  Delivers-cons c x bs s e es call fits hc v count d =
      let step = decode-settle x bs (Holds-IsPartial self c x hc) fits in
      let both = decode-append x bs d.taken in
      record {
        taken = bs ++ d.taken;
        rest = d.rest;
        after = d.after;
        split = append_assoc bs d.taken d.rest ∙ ap (◌++◌ bs) d.split;
        returns = rw (
          v.returns,
          d.returns,
          both,
          step,
          v.queues,
          messages-append,
          messages_eq self c v.out.conn (decode (settle (x ++ bs)).0 d.taken).1 v.same_sequence,
        );
        holds = rw (both, step) d.holds;
        same_sequence = d.same_sequence ∙ v.same_sequence;
        all = λ l. d.all (count l);
      }

  empty_Delivers :
      (c : Connection) (x s : List ℕ) (es : List Event)
      → Holds self c x
      → (length s ≤ readies es → s ≡ [])
      → Delivers c x s es (some (record { conn = c; queued = []; unread = s }))
  unfolding decode
  empty_Delivers c x s es v all = record {
    taken = [];
    rest = s;
    after = c;
    split = refl;
    returns = refl;
    holds = v;
    same_sequence = refl;
    all = all;
  }

  -- A call that settles, and the run that follows it.
  go_on :
      (c : Connection) (x bs s : List ℕ) (e : Event) (es : List Event) (call : RecvCall)
      → length bs ≤ wanted x
      → Holds self c x
      → Settles self c (x ++ bs) (event_readable_request_handler self c call)
      → (length (bs ++ s) ≤ readies (e ∷ es) → length s ≤ readies es)
      → ((d : Connection) (y : List ℕ) → Holds self d y → Delivers d y s es (serve self d es s))
      → Delivers c x (bs ++ s) (e ∷ es) (
          event_readable_request_handler self c call >>= λ h.
          then_queue h.queued (serve self h.conn es s))
  go_on c x bs s e es call fits hc v count ih =
      Delivers-cons c x bs s e es call fits hc v count (ih v.out.conn _ v.holds)

  -- Whatever the sizes of the reads and wherever signals interrupt them, the handler runs without
  -- a fault, and the messages queued are the packets of the bytes read; the packet under way is
  -- held. With one event for each byte, all bytes are read.
  pub serve-Delivers :
      (es : List Event) (c : Connection) (x s : List ℕ)
      → Holds self c x
      → Delivers c x s es (serve self c es s)
  unfolding serve
  serve-Delivers [] c x s v = empty_Delivers c x s [] v (λ l. ground arith)
  serve-Delivers (interrupted ∷ es) c x s v =
      go_on c x [] s interrupted es (failed eintr) (omega arith) v
        (rw (append-nil x) (interrupted-Settles self c x v)) (λ l. l)
        (λ d y w. serve-Delivers es d y s w)
  serve-Delivers (ready n ∷ es) c x [] v =
      let d = serve-Delivers es c x [] v in
      record {
        taken = d.taken;
        rest = d.rest;
        after = d.after;
        split = d.split;
        returns = d.returns;
        holds = d.holds;
        same_sequence = d.same_sequence;
        all = λ l. d.all (omega arith);
      }
  serve-Delivers (ready n ∷ es) c x (b ∷ s) v =
      let k = min (suc n) (asked self c) in
      let want = asked-wanted self c x v in
      let pos_k : 0 < k = omega (arith, asked_pos self c x v) in
      let fits : length (take k (b ∷ s)) ≤ wanted x = omega (arith, length-take k (b ∷ s), want) in
      let cut = take-append-drop k (b ∷ s) in
      rw cut at (
        go_on c x (take k (b ∷ s)) (drop k (b ∷ s)) (ready n) es (got (take k (b ∷ s))) fits v
          (chunk-Settles self c x (take k (b ∷ s)) v fits)
          (λ l. omega (arith, length-drop k (b ∷ s), ap length cut))
          (λ d y w. serve-Delivers es d y (drop k (b ∷ s)) w))

  decode-all :
      (ps : List (List ℕ)) (taken rest : List ℕ)
      → AllPackets ps
      → taken ++ rest ≡ concat ps
      → rest ≡ []
      → decode [] taken ≡ ([], ps)
  decode-all ps taken rest v e f =
      let g : taken ≡ concat ps = sym (append-nil taken) ∙ rw f at e in rw g (decode-concat ps v)

  -- Packets (of 8 to 29000 bytes, as long as they say) sent one after the other to a connection that
  -- waits for a header are queued as they were sent, each once and in order, whatever the sizes of the
  -- reads, once there were as many readable events as bytes; nothing is left over, and the machine
  -- waits for a header again.
  pub serve-packets :
      (c : Connection) (ps : List (List ℕ)) (es : List Event)
      → c.curstat ≡ pkg_hd_init
      → AllPackets ps
      → length (concat ps) ≤ readies es
      → (after : Connection) × (serve self c es (concat ps)
          ≡ some (record { conn = after; queued = messages self c ps; unread = [] }))
        × Holds self after []
  serve-packets c ps es st v enough =
      let d = serve-Delivers es c [] (concat ps) (idle st refl) in
      let none_left = d.all enough in
      let dec = decode-all ps d.taken d.rest v d.split none_left in
      (d.after, rw (d.returns, dec, none_left), rw dec at d.holds)
