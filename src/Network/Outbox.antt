-- ===== src/Network/Outbox.antt =====
-- A network client that only keeps what it is given, and gets no answers.
use wasm_master.Common.{List, [], ◌∷◌, ◌++◌, refl}
use wasm_master.Network.{NetworkOps, Sending, SendsInOrder}

abbrev pub Outbox : Type 0
Outbox = List Sending

abbrev pub outbox_ops : NetworkOps Outbox
outbox_ops = record {
  send_message = λ nodes m sent. ([], sent ++ record { nodes = nodes; message = m } ∷ []);
  send_message_forget = λ nodes m sent. sent ++ record { nodes = nodes; message = m } ∷ [];
}

abbrev pub outbox-SendsInOrder : SendsInOrder outbox_ops
outbox-SendsInOrder = record {
  sent = λ n. n;
  forgotten = λ nodes m n. refl;
  answered = λ nodes m n. refl;
}
