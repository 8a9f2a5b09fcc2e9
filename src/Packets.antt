-- ===== src/Packets.antt =====
-- tags/cbcbsim-1.0.2/include/cbcbsim/CCNxPackets.h: the packet classes and their constructors.
--
-- A class that extends another holds it as a field whose names it opens. `M` stands for the message
-- type of the siena library, which the packets only carry. Simulation times are counted in ticks.
use ccnpl_sim.Prelude.{ℕ, ◌*◌, [], Text}

-- `CCNxPacket`.
pub record CcnxPacket (M : Type 0) : Type 0 where
  pub sender : ℕ
  pub chunk_id : ℕ
  pub content_name : Text
  pub size : ℕ
  pub msg : M
  pub port : ℕ
  pub popularity_class : ℕ
  pub content_size : ℕ
  pub source : Text

-- `INTEREST`.
pub record Interest (M : Type 0) : Type 0 where
  pub packet : CcnxPacket M
  pub open packet use *
  pub issue_time : ℕ
  pub data_size : ℕ

-- `DATA`.
pub record Data (M : Type 0) : Type 0 where
  pub packet : CcnxPacket M
  pub open packet use *
  pub interest_issue_time : ℕ

-- `INFO`.
pub record Info (M : Type 0) : Type 0 where
  pub base : Data M
  pub open base use *
  pub receiver_win : ℕ
  pub data_chunk_size : ℕ
  pub fec_perc : ℕ

-- `ServedContent`, less its predicate: what the `INFO` of a served content reads.
pub record ServedContent : Type 0 where
  pub file_size : ℕ
  pub chunk_size : ℕ
  pub served_receiver_win : ℕ
  pub served_fec_perc : ℕ
  pub served_popularity_class : ℕ

module _ {M : Type 0} where
  -- The constructor of `INTEREST` from its parts: every interest is 25 bytes long.
  unfoldable pub new_interest : ℕ → Text → ℕ → ℕ → M → ℕ → ℕ → ℕ → ℕ → Interest M
  new_interest sender name chunk issue_time msg data_size port class content_size = record {
    packet = record {
      sender = sender;
      chunk_id = chunk;
      content_name = name;
      size = 25 * 8;
      msg = msg;
      port = port;
      popularity_class = class;
      content_size = content_size;
      source = [];
    };
    issue_time = issue_time;
    data_size = data_size;
  }

  -- The copy of an interest that a node forwards under its own id.
  unfoldable pub forward_interest : ℕ → Interest M → Interest M
  unfolding new_interest
  forward_interest sender i =
      new_interest sender i.content_name i.chunk_id i.issue_time i.msg i.data_size i.port
        i.popularity_class i.content_size

  -- The `DATA` packet that answers an interest.
  unfoldable pub data_of_interest : ℕ → Interest M → Data M
  data_of_interest sender i = record {
    packet = record {
      sender = sender;
      chunk_id = i.chunk_id;
      content_name = i.content_name;
      size = i.data_size;
      msg = i.msg;
      port = i.port;
      popularity_class = i.popularity_class;
      content_size = i.content_size;
      source = [];
    };
    interest_issue_time = i.issue_time;
  }

  -- The copy of a `DATA` packet that a node forwards, to another port and with the path so far.
  unfoldable pub forward_data : ℕ → Data M → ℕ → Text → Data M
  forward_data sender d port source = record {
    packet = record {
      sender = sender;
      chunk_id = d.chunk_id;
      content_name = d.content_name;
      size = d.size;
      msg = d.msg;
      port = port;
      popularity_class = d.popularity_class;
      content_size = d.content_size;
      source = source;
    };
    interest_issue_time = d.interest_issue_time;
  }

  -- The `INFO` of a served content: chunk 0, port 0 and size 0.
  unfoldable pub info_of_served : ℕ → Text → M → ℕ → ServedContent → Info M
  info_of_served sender name msg issue_time served = record {
    base = record {
      packet = record {
        sender = sender;
        chunk_id = 0;
        content_name = name;
        size = 0;
        msg = msg;
        port = 0;
        popularity_class = served.served_popularity_class;
        content_size = served.file_size;
        source = [];
      };
      interest_issue_time = issue_time;
    };
    receiver_win = served.served_receiver_win;
    data_chunk_size = served.chunk_size;
    fec_perc = served.served_fec_perc;
  }

  -- The copy of an `INFO` packet that a node forwards, to another port.
  unfoldable pub forward_info : ℕ → Info M → ℕ → Info M
  forward_info sender i port = record {
    base = record {
      packet = record {
        sender = sender;
        chunk_id = i.chunk_id;
        content_name = i.content_name;
        size = 0;
        msg = i.msg;
        port = port;
        popularity_class = i.popularity_class;
        content_size = i.content_size;
        source = [];
      };
      interest_issue_time = i.interest_issue_time;
    };
    receiver_win = i.receiver_win;
    data_chunk_size = i.data_chunk_size;
    fec_perc = i.fec_perc;
  }
