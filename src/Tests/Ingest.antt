-- ===== src/Tests/Ingest.antt =====
-- Tests of `src/ingest`.
use mail_tester.Prelude.{
  ◌≡◌, refl, length, ltb, Option, none, some, List, [], ◌∷◌, Text, codes, if◌then◌else◌, ◌=ᵗ◌,
}
use mail_tester.Db.Mongo.Memory as MongoMemory
use mail_tester.Db.Redis.Memory as RedisMemory
use mail_tester.Db.Cache.{text_or_empty}
use mail_tester.Exec.{ok}
use mail_tester.Ingest.Connection.{read_connection}
use mail_tester.Ingest.Connection.Facts.{client_ip-read_connection, IsBracketed, IsDottedQuad}
use mail_tester.Ingest.LmtpServer.{handle_data, Fault, no_task, too_large_552}
use mail_tester.Ingest.LmtpServer.Delivery.{
  handle_data_delivers, Delivered, ours, before_fault, first_fault, left_for, answer_for,
}
use mail_tester.Regex.{search_text}
use mail_tester.Tests.Data.{conf, some_world, parse, address}

abbrev top : Text
top = codes "from a.test (a.test [192.0.2.1]) by b.test with ESMTPS id 1"

abbrev ip : Text
ip = codes "192.0.2.1"

top_ip : (read_connection top).client_ip ≡ some ip
unfolding read_connection search_text
top_ip = refl

client_ip-read_connection_example : IsBracketed ip top × IsDottedQuad ip
client_ip-read_connection_example = client_ip-read_connection top ip top_ip

abbrev hi : Option Text
hi = some (codes "hi")

abbrev two_rcpts : List (Option Text)
two_rcpts = some (codes " A@mx.test") ∷ some (codes "c@mx.test") ∷ []

-- `.delay` raises for the second address.
abbrev broken : Text → Option Fault
broken a = if a =ᵗ address then none else some no_task

handle_data_delivers_example :
    (let big = ltb conf.message_size_limit (length (text_or_empty hi)) in
      let fault = first_fault broken (ours conf two_rcpts) in
      Delivered
        (if big then [] else before_fault broken (ours conf two_rcpts))
        (if big then [] else left_for fault)
        (if big then ok too_large_552 else answer_for fault)
        some_world
        (handle_data parse conf broken 5 hi none two_rcpts some_world))
handle_data_delivers_example =
    handle_data_delivers MongoMemory.memory MongoMemory.memory-IsMongo RedisMemory.memory parse conf
      broken 5 hi none two_rcpts some_world
