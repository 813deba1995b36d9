-- ===== src/Uvcpp/Events.antt =====
-- The callbacks of uvcppclient/uvcpp.cpp that run on the loop's thread: of the async handle, of
-- the connection, of reading and of closing.
use libuvwrapper.Base.{
  ℕ, Bool, true, false, not, ◌&&◌, Option, none, some, List, [], ◌∷◌, ◌==◌, if◌then◌else◌, Outcome,
  ok, ◌>>=◌, ◌>>◌, deref, require,
}
use libuvwrapper.Uvcpp.{
  start_thread, Client, WorkEvent, send_data, close_conn, stop_loop, unset, raw, ready, log,
  connect, init_async, close_async, end_loop, close_tcp, start_read, stop_read, deliver, Socket,
  write, is_auto_reconnect, is_loop_stop, is_status_normal, set_status_normal,
  set_status_non_normal,
}

-- async_init, which `run` calls before it starts the loop's thread.
unfoldable pub async_init : Client → Client
async_init c = log (record c { async = ready }) init_async

-- run: the thread runs uv_run, which calls the callbacks below.
unfoldable pub run : Client → Client
unfolding async_init
run c = log (async_init c) start_thread

-- async_deinit
unfoldable pub async_deinit : Client → Client
async_deinit c = elim c.async [ unset ↦ c | raw ↦ log c close_async | ready ↦ log c close_async ]

-- The close callback of the async handle.
unfoldable pub async_closed : Client → Client
async_closed c = record c { async = unset }

unfoldable pub inner_close : Client → Outcome Client
inner_close c =
    if is_status_normal c
    then (deref c.tcp_handle
        λ h. ok (log (record (set_status_non_normal c) { data_set = true }) (close_tcp h)))
    else ok c

unfoldable pub inner_stop : Client → Outcome Client
unfolding inner_close async_deinit
inner_stop c = do c ← inner_close c; ok (log (async_deinit c) end_loop)

-- The loop over the work items: closing and stopping return.
unfoldable pub serve : Socket → List (ℕ × WorkEvent) → Client → Outcome Client
unfolding inner_stop inner_close write
serve sock [] c = ok c
serve sock ((k, send_data) ∷ ws) c = write sock c >>= serve sock ws
serve sock ((k, close_conn) ∷ ws) c = inner_close c
serve sock ((k, stop_loop) ∷ ws) c = inner_stop c

-- The callback of the async handle: it takes the whole map first.
unfoldable pub on_work : Socket → Client → Outcome Client
unfolding serve
on_work sock c = serve sock c.works (record c { works = [] })

-- The callback of the connection: `h` is `req->handle`, `failed` whether the status is not 0.
unfoldable pub on_connect : Option ℕ → Bool → Client → Outcome Client
unfolding inner_close
on_connect none failed c = inner_close (record c { tcp_handle = none })
on_connect (some h) failed c =
    if failed
    then inner_close (record c { tcp_handle = some h })
    else ok (log (set_status_normal (record c { tcp_handle = some h })) start_read)

-- The callback of reading: `none` for an error or the end, else the bytes that were read. It
-- finds the client through the handle's `data`, which it does not use for no bytes.
unfoldable pub on_read : Option (List ℕ) → Client → Outcome Client
unfolding inner_close
on_read none c = do require c.data_set; deref c.tcp_handle λ h. inner_close (log c stop_read)
on_read (some []) c = ok c
on_read (some (x ∷ xs)) c = do require c.data_set; ok (log c (deliver (x ∷ xs)))

-- The handle that a close callback is given, against `_tcpHandle`.
abbrev is_handle : Option ℕ → ℕ → Bool
is_handle none h = false
is_handle (some k) h = k == h

-- The close callback of the TCP handle.
unfoldable pub on_close : ℕ → Client → Outcome Client
unfolding connect
on_close h c = do
  require c.data_set
  let gone = record c { tcp_handle = none } in
      ok (
        if is_handle c.tcp_handle h
        then if is_auto_reconnect c && not (is_loop_stop c) then connect gone else gone
        else c)
