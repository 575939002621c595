-- ===== src/Bram.antt =====
-- include/modules/bram_memory.hpp: `DualPortBram<T, Depth, Latency>`, a memory with two ports.
-- The template's `Depth` and `Latency` are arguments. The two `assert`s of `posedge` are a predicate
-- of their own: where they hold, or with asserts compiled out, `posedge` is as below.
pub mod Access
pub mod Latency
mod Tests
use fpga_sim_core.Prelude.{
  ℕ, zero, suc, ◌+◌, ◌-◌, Bool, true, false, not, ◌&&◌, ◌||◌, List, get_or, set, replicate, ltb,
  leb, ◌==◌, if◌then◌else◌,
}

module _ {ℓ} where
  pub record PortRequest (T : Type ℓ) : Type ℓ where
    pub read : Bool
    pub write : Bool
    pub address : ℕ
    pub write_data : T

  pub record PortResponse (T : Type ℓ) : Type ℓ where
    pub valid : Bool
    pub value : T

  pub record Pair (T : Type ℓ) : Type ℓ where
    pub a : PortRequest T
    pub b : PortRequest T

  pub record DualPortBram (T : Type ℓ) : Type ℓ where
    pub memory : List T
    pub pending : List (Pair T)
    pub response_a : PortResponse T
    pub response_b : PortResponse T
    pub collision : Bool

-- The template's parameters, and `T{}`.
module _ {ℓ} {T : Type ℓ} (z : T) (depth latency : ℕ) where
  unfoldable pub no_request : PortRequest T
  no_request = record { read = false; write = false; address = 0; write_data = z }

  unfoldable pub no_response : PortResponse T
  no_response = record { valid = false; value = z }

  unfoldable pub no_pair : Pair T
  unfolding no_request
  no_pair = record { a = no_request; b = no_request }

  unfoldable pub fresh : DualPortBram T
  unfolding no_pair no_response
  fresh = record {
    memory = replicate depth z;
    pending = replicate latency no_pair;
    response_a = no_response;
    response_b = no_response;
    collision = false;
  }

  unfoldable pub reset : DualPortBram T → DualPortBram T
  unfolding no_pair no_response
  reset m = record m {
    memory = replicate depth z;
    pending = replicate latency no_pair;
    response_a = no_response;
    response_b = no_response;
    collision = false;
  }

  unfoldable pub collides : PortRequest T → PortRequest T → Bool
  collides a b =
      (a.write && b.write && a.address == b.address)
      || (a.write && b.read && a.address == b.address)
      || (b.write && a.read && a.address == b.address)

  -- The two `assert`s: no port in use addresses past the end, and no collision.
  unfoldable pub asserts : PortRequest T → PortRequest T → Bool
  unfolding collides
  asserts a b =
      (not (leb depth a.address || leb depth b.address)
        || ((not a.read && not a.write || ltb a.address depth)
            && (not b.read && not b.write || ltb b.address depth)))
      && not (collides a b)

  -- `for (i = first; i < first + rounds; ++i) pending_[i] = pending_[i - 1]`.
  unfoldable pub shift : List (Pair T) → ℕ → ℕ → List (Pair T)
  unfolding no_pair
  shift pending first zero = pending
  shift pending first (suc rounds) =
      shift (set pending first (get_or pending (first - 1) no_pair)) (first + 1) rounds

  unfoldable pub posedge : DualPortBram T → PortRequest T → PortRequest T → DualPortBram T
  unfolding collides shift
  posedge m a b = record m {
    collision = collides a b;
    pending = shift (set m.pending 0 (record { a = a; b = b })) 1 (latency - 1);
  }

  unfoldable pub write_port : List T → PortRequest T → List T
  write_port memory r =
      if r.write && ltb r.address depth then set memory r.address r.write_data else memory

  unfoldable pub read_port : List T → PortRequest T → PortResponse T
  unfolding no_response
  read_port memory r =
      if r.read && ltb r.address depth
      then record { valid = true; value = get_or memory r.address z }
      else no_response

  unfoldable pub negedge : DualPortBram T → DualPortBram T
  unfolding no_pair write_port read_port
  negedge m =
      let request = get_or m.pending (latency - 1) no_pair in
      let memory' = write_port (write_port m.memory request.a) request.b in
      record m {
        memory = memory';
        response_a = read_port memory' request.a;
        response_b = read_port memory' request.b;
      }
