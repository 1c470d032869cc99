-- ===== src/Codec/Records/Written.antt =====
-- rpc_hlp.cpp: the writers of structures only ever add to a packet.
use reverse_engineearing.Base.{ℕ, List}
use reverse_engineearing.Codec.Extends.{Extends, Extends-dd, Extends-str, Extends-list}
use reverse_engineearing.Codec.Records.{
  ProcessInfo, append_process_info, DebappAttrs, append_debapp_attrs, CallStack, append_call_stack,
}
use reverse_engineearing.Codec.Records.Tables.{append_frame-append}

pub append_process_info-Extends :
    {s t : List ℕ} (p : ProcessInfo) → Extends s t → Extends s (append_process_info t p)
unfolding append_process_info
append_process_info-Extends p e = Extends-str _ (Extends-dd _ e)

pub append_debapp_attrs-Extends :
    {s t : List ℕ} (a : DebappAttrs) → Extends s t → Extends s (append_debapp_attrs t a)
unfolding append_debapp_attrs
append_debapp_attrs-Extends a e = Extends-str _ (Extends-dd _ e)

pub append_call_stack-Extends :
    {s t : List ℕ} (c : CallStack) → Extends s t → Extends s (append_call_stack t c)
unfolding append_call_stack
append_call_stack-Extends c e = Extends-list append_frame-append _ (Extends-dd _ e)
