-- ===== src/Examples/Running.antt =====
-- The theorem on the rounds of the loop at a node that starts and is sent a file.
use distributed_storage_syst.Prelude.{refl, [], ◌∷◌, Option, none, some, true, false, replicate}
use distributed_storage_syst.Server.{ServerState, dial_index}
use distributed_storage_syst.FileServer
use distributed_storage_syst.FileServer.{max_files, zero_file}
use distributed_storage_syst.NetIndex
use distributed_storage_syst.Transfer.{Wait, done}
use distributed_storage_syst.Gossip.{
  Presentation, booting, connecting, begin_operation, wait_index_gossip,
}
use distributed_storage_syst.Packets
use distributed_storage_syst.Packets.{
  Packet, Received, got, closed, create_file, presentation, full,
}
use distributed_storage_syst.Packets.MessageType
use distributed_storage_syst.Machine.{nothing}
use distributed_storage_syst.Machine.Idle.{Events, Idled, idle}
use distributed_storage_syst.Machine.Taken.{Answers, Taken, received_packet}
use distributed_storage_syst.Machine.Knowledge.{Exchange, report_knowledge}
use distributed_storage_syst.Machine.Step.{
  Node, kept, boots, connects, begins, learns, reports, idles, takes, Steps, starts, goes_on,
}
use distributed_storage_syst.Machine.Members.{Member}
use distributed_storage_syst.Machine.Invariant.{Steps-Member}
use distributed_storage_syst.Examples.{node, peer, localhost, addresses}

abbrev given {ℓ} : {A : Type ℓ} → A → Option A → A
given a none = a
given a (some b) = b

abbrev ended {ℓ} : {A : Type ℓ} → A → Wait A → A
ended a (done b) = b
ended a w = a

-- Node 1 of three, not yet connected.
abbrev off : Node
off = record {
  server = record (node 1 3 2) {
    peer_f = record (peer 2) { stream_fd = none; is_open = false };
    peer_b = record (peer 3) { stream_fd = none; is_open = false };
    state = ServerState.booting;
  };
  files = FileServer.init (replicate max_files zero_file);
  net = NetIndex.init;
  stored = nothing;
}

abbrev booted : Node
booted = record off { server = given off.server (booting off.server (some 3) 1) }

abbrev connected : Node
connected = record booted { server = connecting booted.server (some 4) (some 5) 2 }

abbrev begun : Node
begun = record connected {
  server =
      (given (connected.server, connected.files, connected.net)
        (begin_operation connected.server connected.files connected.net addresses 3)).0;
}

abbrev told : Presentation
told = record { sender_id = 3; index_id = 3; index_addr = localhost 5003 }

abbrev learnt : Node
learnt = record begun {
  server = (given (begun.server, none) (wait_index_gossip begun.server told true 4)).0;
}

abbrev exchange : Exchange
exchange = record {
  dialed = some 6;
  is_presented = true;
  answer = got (full (node 3 2 1) MessageType.ok Packets.zeros);
  is_reported = true;
  written = [];
  replies = [];
  now = 5;
}

abbrev reported : Node
reported = record learnt {
  server = (ended (learnt.server, []) (report_knowledge learnt.server learnt.files exchange)).0;
}

abbrev asked : Packet
asked = full (node 2 1 3) MessageType.create_file (create_file (b'a' ∷ 0 ∷ []) 5)

abbrev events : Events
events = record {
  peeked = 1;
  notice = none;
  dialed = none;
  has_data = false;
  client_packet = closed;
  accepted = some 7;
  first = got (presentation (node 2 1 3));
  second = got asked;
  now = 6;
}

abbrev round : Idled
round =
    given (record { server = reported.server; stored = nothing; notices = []; replies = [] })
      (idle reported.server events)

abbrev served : Node
served = record reported { server = round.server; stored = kept reported.stored round.stored }

-- The node passes the packet on to the index and waits for the bytes.
abbrev answers : Answers
answers = record {
  index_fd = some 8;
  from_index = closed;
  line = record { fd = none; replies = [] };
  now = 7;
}

abbrev told_index : Taken
told_index =
    ended
      (record {
        server = served.server;
        files = served.files;
        stored = nothing;
        replies = [];
        to_index = [];
        talk = none;
      })
      (received_packet served.server served.files (got asked) 7 answers)

abbrev taken : Node
taken = record served {
  server = told_index.server;
  files = told_index.files;
  stored = kept served.stored told_index.stored;
}

run : Steps off taken
unfolding booting connecting begin_operation wait_index_gossip report_knowledge idle received_packet
    kept dial_index Packets.type_of full FileServer.init Packets.wait_client_presentation
    presentation Packets.content_of
run =
    goes_on served taken
      (goes_on reported served
        (goes_on learnt reported
          (goes_on begun learnt
            (goes_on connected begun
              (goes_on booted connected
                (goes_on off booted starts (boots booted.server (some 3) 1 refl refl))
                (connects (some 4) (some 5) 2 refl))
              (begins begun.server begun.files begun.net addresses 3 refl refl))
            (learns learnt.server told true (some (record told { sender_id = 1 })) 4 refl refl))
          (reports reported.server exchange _ refl refl))
        (idles events round refl refl))
      (takes (got asked) 7 answers told_index refl refl refl)

Steps-Member_example : Member taken.server taken.stored
Steps-Member_example = Steps-Member off taken refl run
