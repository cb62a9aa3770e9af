-- ===== src/Io/Tests.antt =====
-- Transfers at a socket that takes and gives two bytes at a time.
use redis_c.Base.{List, [], ◌∷◌, ok, refl, ◌≡◌, true}
use redis_c.Io.{wrote, write_all, Read, got, read_full}

send_three :
    write_all (wrote 2 ∷ wrote 1 ∷ []) (7 ∷ 8 ∷ 9 ∷ [])
    ≡ ok (record { sent = 7 ∷ 8 ∷ 9 ∷ []; done = true })
unfolding write_all
send_three = refl

abbrev chunks : List Read
chunks = got (7 ∷ 8 ∷ []) ∷ got (9 ∷ []) ∷ []

read_three : read_full chunks 3 ≡ ok (record { bytes = 7 ∷ 8 ∷ 9 ∷ []; complete = true; left = [] })
unfolding read_full
read_three = refl
