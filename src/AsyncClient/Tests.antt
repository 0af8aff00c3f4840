-- ===== src/AsyncClient/Tests.antt =====
-- Replies to a concrete client.
use middleware_development_d.Prelude.{◌≡◌, none, some, [], ◌∷◌}
use middleware_development_d.Reactor.{blank}
use middleware_development_d.AsyncClient.{Client}
use middleware_development_d.AsyncClient.Replies.{replies, replies-disconnects}

abbrev client : Client
client = record {
  world = record {
    reactor = record { epfd = 4; listenfd = 0; stop = 0; iter = 0; events = λ _. blank; log = [] };
    timers = record {
      tree = record { root = 9; sentinel = 9; cells = λ _. none };
      entries = λ _. record { handler = none; privdata = 0 };
    };
    waits = [];
  };
  cnt = 0;
  before = 0;
  num = 2;
  disconnects = 0;
}

replies-disconnects_example :
    (replies (some 1 ∷ none ∷ some 2 ∷ some 3 ∷ []) client).disconnects ≡ 1
replies-disconnects_example = replies-disconnects (some 1 ∷ none ∷ some 2 ∷ some 3 ∷ []) client
