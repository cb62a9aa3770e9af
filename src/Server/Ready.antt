-- ===== src/Server/Ready.antt =====
-- `do_request` of src/server.cpp on small data, and the connections in front of it.
use redis_c.Base.{
  ℕ, suc, ◌^◌, ◌<◌, ◌≤◌, ◌≡◌, refl, Bool, true, false, ◌||◌, List, [], ◌∷◌, length, Run, ok,
  Returns, ◌>>=◌, arith, if◌then◌else◌,
}
use redis_c.HashMap.{k_resizing_work}
use redis_c.HashMap.Invariant.{entries}
use redis_c.Request.{Command, k_max_msg}
use redis_c.Request.Format.{request_bytes, args_size}
use redis_c.Client.Exchange.{length-request_bytes}
use redis_c.Reply.{out_nil, out_int, out_err}
use redis_c.Reply.Value.{write_value, arr}
use redis_c.Keys.{hashed_entry, Db, do_get, do_set, do_del, do_keys}
use redis_c.Keys.Refine.{Values, Represents, put, without, answer, do_get-Represents}
use redis_c.Keys.Update.{was_there, do_set-Represents, do_del-Represents}
use redis_c.Keys.Listing.{key_items, do_keys-write_value}
use redis_c.ZSet.{hashed_ref}
use redis_c.Sets.{State, do_zadd, do_zrem, do_zscore, do_zquery}
use redis_c.Server.{
  do_request, cmd_is, unknown, with_db, err_unknown, unknown_cmd, keys, get, set, del, zadd, zrem,
  zscore, zquery,
}
use redis_c.Server.Data.{Ready, fewer_Ready, after_Ready}
use redis_c.Server.SortedSets.{Answers, do_zadd-Ready, do_zrem-Ready, do_zscore-Ready}
use redis_c.Server.Query.{do_zquery-Ready}
use redis_c.Conn.{buf_size, Session, connection_io}
use redis_c.Conn.Event.{IsOpen, Handled, connection_io-Handled}

-- the commands and their numbers of strings
abbrev pub known : Command → Bool
known (name ∷ []) = cmd_is name keys
known (name ∷ key ∷ []) = cmd_is name get || cmd_is name del
known (name ∷ key ∷ val ∷ []) = cmd_is name set || cmd_is name zrem || cmd_is name zscore
known (name ∷ key ∷ score ∷ member ∷ []) = cmd_is name zadd
known (name ∷ key ∷ score ∷ member ∷ offset ∷ limit ∷ []) = cmd_is name zquery
known cmd = false

-- the reply to a command and the data after it, for data whose key space stands for `f`
pub data Replied (strtod : List ℕ → ℕ × ℕ) (d : State) (f : Values)
    : Command → List ℕ → State → Type 0 where
  on_keys :
      (name : List ℕ)
      → cmd_is name keys ≡ true
      → Replied strtod d f (name ∷ []) (write_value [] (arr (key_items (entries d.db)))) d
  on_get :
      (name key : List ℕ)
      → cmd_is name get ≡ true
      → Replied strtod d f (name ∷ key ∷ []) (answer [] (f key)) d
  on_del :
      (name key : List ℕ) (db' : Db)
      → cmd_is name del ≡ true
      → Represents db' (without f key)
      → Replied strtod d f
          (name ∷ key ∷ [])
          (out_int [] (was_there (f key)))
          (record d { db = db' })
  on_set :
      (name key val : List ℕ) (db' : Db)
      → cmd_is name set ≡ true
      → Represents db' (put f key val)
      → Replied strtod d f (name ∷ key ∷ val ∷ []) (out_nil []) (record d { db = db' })
  on_zrem :
      (name key member out : List ℕ) (d' : State)
      → cmd_is name zrem ≡ true
      → do_zrem 129 d key member [] ≡ ok (out, d')
      → Replied strtod d f (name ∷ key ∷ member ∷ []) out d'
  on_zscore :
      (name key member out : List ℕ) (d' : State)
      → cmd_is name zscore ≡ true
      → do_zscore 129 d key member [] ≡ ok (out, d')
      → Replied strtod d f (name ∷ key ∷ member ∷ []) out d'
  on_zadd :
      (name key score member out : List ℕ) (d' : State)
      → cmd_is name zadd ≡ true
      → do_zadd strtod 129 d key score member [] ≡ ok (out, d')
      → Replied strtod d f (name ∷ key ∷ score ∷ member ∷ []) out d'
  on_zquery :
      (name key score member offset limit out : List ℕ) (d' : State)
      → cmd_is name zquery ≡ true
      → do_zquery strtod 129 d key score member offset limit [] ≡ ok (out, d')
      → Replied strtod d f (name ∷ key ∷ score ∷ member ∷ offset ∷ limit ∷ []) out d'
  on_unknown :
      (cmd : Command)
      → known cmd ≡ false
      → Replied strtod d f cmd (out_err [] err_unknown unknown_cmd) d

test_returns :
    {A : Type 0} (b : Bool) (x y : Run A) (P : A → Type 0)
    → (b ≡ true → Returns x P)
    → (b ≡ false → Returns y P)
    → Returns (if b then x else y) P
test_returns true x y P h k = h refl
test_returns false x y P h k = k refl

fuel_enough : k_resizing_work < 129
fuel_enough = omega arith

-- a part of a small request is small
last_small :
    (name key val : List ℕ)
    → length (request_bytes (name ∷ key ∷ val ∷ [])) ≤ k_max_msg
    → length val ≤ k_max_msg
unfolding args_size
last_small name key val small = omega (arith, small, length-request_bytes (name ∷ key ∷ val ∷ []))

member_small :
    (name key score member : List ℕ)
    → length (request_bytes (name ∷ key ∷ score ∷ member ∷ [])) ≤ k_max_msg
    → length member < 2 ^ 32
unfolding args_size
member_small name key score member small =
    omega (arith, small, length-request_bytes (name ∷ key ∷ score ∷ member ∷ []))

module _ (strtod : List ℕ → ℕ × ℕ) (n : ℕ) (d : State) (r : Ready (suc n) d) where
  -- room is left, and the reply is the one of the command
  abbrev pub Served : Command → List ℕ × State → Type 0
  Served cmd (out, d') = Ready n d' × Replied strtod d r.values cmd out d'

  left : Ready n d
  left = fewer_Ready n (suc n) d (omega arith) r

  unknown-Served : (cmd : Command) → known cmd ≡ false → Returns (ok (unknown d)) (Served cmd)
  unfolding unknown
  unknown-Served cmd other = (_, refl, (left, on_unknown cmd other))

  keys-Served :
      (name : List ℕ)
      → cmd_is name keys ≡ true
      → Returns (do_keys d.db [] >>= λ out. ok (out, d)) (Served (name ∷ []))
  keys-Served name same = (
    (write_value [] (arr (key_items (entries d.db))), d),
    rw (do_keys-write_value d.db r.holds.calm.valid (omega (arith, r.few))) refl,
    (left, on_keys name same),
  )

  get-Served :
      (name key : List ℕ)
      → cmd_is name get ≡ true
      → Returns (with_db d (do_get 129 d.db key [])) (Served (name ∷ key ∷ []))
  unfolding with_db
  get-Served name key same = (
    (answer [] (r.values key), d),
    rw (do_get-Represents 129 fuel_enough d.db r.values key [] r.holds) refl,
    (left, on_get name key same),
  )

  del-Served :
      (name key : List ℕ)
      → cmd_is name del ≡ true
      → Returns (with_db d (do_del 129 d.db key [])) (Served (name ∷ key ∷ []))
  unfolding with_db
  del-Served name key same =
      let ((out, db'), run, (reply, rep, grows)) =
        do_del-Represents 129 fuel_enough d.db r.values key [] r.holds in
      (
        (out_int [] (was_there (r.values key)), record d { db = db' }),
        rw (run, reply) refl,
        (after_Ready n d db' (without r.values key) r rep grows, on_del name key db' same rep),
      )

  set-Served :
      (name key val : List ℕ)
      → cmd_is name set ≡ true
      → length val ≤ k_max_msg
      → Returns (with_db d (do_set 129 d.db key val [])) (Served (name ∷ key ∷ val ∷ []))
  unfolding with_db
  set-Served name key val same short =
      let ((out, db'), run, (reply, rep, grows)) =
        do_set-Represents 129 fuel_enough d.db r.values key val [] r.holds short
          (omega (arith, r.few)) (omega (arith, r.few, r.roomy)) in
      (
        (out_nil [], record d { db = db' }),
        rw (run, reply) refl,
        (after_Ready n d db' (put r.values key val) r rep grows, on_set name key val db' same rep),
      )

  -- a command on sorted sets
  zset-Served :
      (cmd : Command) (call : Run (List ℕ × State)) (key : List ℕ)
      → ((out : List ℕ) (d' : State) → call ≡ ok (out, d') → Replied strtod d r.values cmd out d')
      → Answers n d r key call
      → Returns call (Served cmd)
  zset-Served cmd call key replied ((out, d'), run, ready) =
      ((out, d'), run, (ready, replied out d' run))

  -- Let the key space stand for a finite map in which every value fits a message, and let the
  -- set of every key be well formed. Let no resize go on in the hash map of the keys or of a
  -- set, each with at least 4 buckets (or none yet), and fewer than 32 nodes even after n + 1
  -- more. Then `do_request` returns for every command whose request has at most 4096 bytes,
  -- with room for n more. By name and number of strings: `keys` replies the keys of all
  -- entries, `get` the value of the key or nil, `set` nil with the key put to the value, `del`
  -- whether the key was there, with the key removed; `zadd`, `zrem`, `zscore` and `zquery`
  -- reply and leave what their functions do on the strings in order; any other command gets the
  -- error "Unknown cmd". `keys`, `get` and an unknown command change nothing.
  pub do_request-Ready :
      (cmd : Command)
      → length (request_bytes cmd) ≤ k_max_msg
      → Returns (do_request strtod 129 cmd d) (Served cmd)
  unfolding do_request
  do_request-Ready [] small = unknown-Served [] refl
  do_request-Ready (name ∷ []) small =
      test_returns (cmd_is name keys) _ _ _ (keys-Served name) (unknown-Served (name ∷ []))
  do_request-Ready (name ∷ key ∷ []) small =
      test_returns (cmd_is name get) _ _ _ (get-Served name key) (λ not_get.
        test_returns (cmd_is name del) _ _ _ (del-Served name key)
          (λ not_del. unknown-Served (name ∷ key ∷ []) (rw (not_get, not_del) refl)))
  do_request-Ready (name ∷ key ∷ val ∷ []) small =
      let cmd = name ∷ key ∷ val ∷ [] in
      test_returns (cmd_is name set) _ _ _
        (λ same. set-Served name key val same (last_small name key val small))
        (λ not_set.
          test_returns (cmd_is name zrem) _ _ _
            (λ same.
              zset-Served cmd _ key (λ out d' run. on_zrem name key val out d' same run)
                (do_zrem-Ready n d r key val))
            (λ not_zrem.
              test_returns (cmd_is name zscore) _ _ _
                (λ same.
                  zset-Served cmd _ key (λ out d' run. on_zscore name key val out d' same run)
                    (do_zscore-Ready n d r key val))
                (λ not_zscore. unknown-Served cmd (rw (not_set, not_zrem, not_zscore) refl))))
  do_request-Ready (name ∷ key ∷ score ∷ member ∷ []) small =
      let cmd = name ∷ key ∷ score ∷ member ∷ [] in
      test_returns (cmd_is name zadd) _ _ _
        (λ same.
          zset-Served cmd _ key (λ out d' run. on_zadd name key score member out d' same run)
            (do_zadd-Ready n d r key strtod score member
              (member_small name key score member small)))
        (unknown-Served cmd)
  do_request-Ready (name ∷ key ∷ a ∷ b ∷ c ∷ []) small =
      unknown-Served (name ∷ key ∷ a ∷ b ∷ c ∷ []) refl
  do_request-Ready (name ∷ key ∷ score ∷ member ∷ offset ∷ limit ∷ []) small =
      let cmd = name ∷ key ∷ score ∷ member ∷ offset ∷ limit ∷ [] in
      test_returns (cmd_is name zquery) _ _ _
        (λ same.
          zset-Served cmd _ key
            (λ out d' run. on_zquery name key score member offset limit out d' same run)
            (do_zquery-Ready n d r key strtod score member offset limit))
        (unknown-Served cmd)
  do_request-Ready (name ∷ key ∷ a ∷ b ∷ c ∷ e ∷ g ∷ rest) small =
      unknown-Served (name ∷ key ∷ a ∷ b ∷ c ∷ e ∷ g ∷ rest) refl

module _ (strtod : List ℕ → ℕ × ℕ) where
  pub serves_small :
      (n : ℕ) (cmd : Command) (d : State)
      → length (request_bytes cmd) ≤ k_max_msg
      → Ready (suc n) d
      → Returns (do_request strtod 129 cmd d) (λ (out, d'). Ready n d')
  serves_small n cmd d small r =
      let (result, run, (ready, replied)) = do_request-Ready strtod n d r cmd small in
      (result, run, ready)

  abbrev pub IsOpenServer : Session State → Type 0
  IsOpenServer s = IsOpen (do_request strtod 129) Ready serves_small fewer_Ready s

  abbrev pub HandledServer : Session State → Session State → Type 0
  HandledServer s s' = Handled (do_request strtod 129) Ready serves_small fewer_Ready s s'

  -- Let the key space stand for a finite map in which every value fits a message, and let the
  -- set of every key be well formed. Let no resize go on in the hash map of the keys or of a
  -- set, each with at least 4 buckets (or none yet), and fewer than 32 nodes even if every byte
  -- in `rbuf` and every byte that the socket may still give were a new one. Then an event of an
  -- open connection, with fuel above the size of a buffer and the numbers of answers that the
  -- socket has for `read` and `write`, returns from `connection_io` with the commands of
  -- `do_request`: some requests at the front of the stream are served in order, each by
  -- `do_request` on the data that the one before left, their replies appended to what is sent
  -- and still to be sent, and the connection is closed or open again, with data of that kind.
  -- In STATE_REQ, bytes come in if the next `read` that is not interrupted gives some. If the
  -- connection was in STATE_REQ, and bytes came in or no acceptable request stood at the front
  -- of `rbuf`, then afterwards no acceptable request stands there, or a reply is not fully
  -- sent.
  pub connection_io-HandledServer :
      (fuel : ℕ) (s : Session State)
      → IsOpenServer s
      → length s.socket.writes < fuel
      → buf_size < fuel
      → length s.socket.reads < fuel
      → Returns (connection_io (do_request strtod 129) fuel s) (HandledServer s)
  connection_io-HandledServer fuel s waits writes size reads =
      connection_io-Handled (do_request strtod 129) Ready serves_small fewer_Ready fuel s waits
        writes size reads
